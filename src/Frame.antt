-- ===== src/Frame.antt =====
-- How the pallets run on FRAME: results, calls that change storage and may fail, origins.
-- What a failing call has written stays written, unless the call is `#[transactional]`.
mod Errors
pub mod Outcome
pub use Errors.*
pub use Outcome.{Result, ok, err, is_ok}
use polkadot_ethereum.Prelude.{ℕ, ◌≡◌, Bool, true, false, Option, none, some}

abbrev pub Call : Type 0 → Type 0 → Type 0
Call S A = S → Result DispatchError A × S

-- `DispatchResult` of a call
abbrev pub Dispatch : Type 0 → Type 0
Dispatch S = Call S (Unit {0})

module _ {S A : Type 0} where
  abbrev pub pure : A → Call S A
  pure a s = (ok a, s)

  abbrev pub raise : DispatchError → Call S A
  raise e s = (err e, s)

  abbrev pub gets : (S → A) → Call S A
  gets f s = (ok (f s), s)

  abbrev pub lift : Result DispatchError A → Call S A
  lift r s = (r, s)

  -- `.ok_or(e)?`
  abbrev pub ok_or : Option A → DispatchError → Call S A
  ok_or none e = raise e
  ok_or (some a) _ = pure a

  -- `.map_err(|_| e)?`
  abbrev pub map_err : DispatchError → Call S A → Call S A
  map_err e m s = let (r, s') = m s in elim r [ ok a ↦ (ok a, s') | err _ ↦ (err e, s') ]

  -- `#[transactional]`: a call that fails leaves the storage as it found it.
  abbrev pub transactional : Call S A → Call S A
  transactional m s = let (r, s') = m s in elim r [ ok a ↦ (ok a, s') | err e ↦ (err e, s) ]

module _ {S : Type 0} where
  abbrev pub modify : (S → S) → Dispatch S
  modify f s = (ok tt, f s)

  -- `ensure!(condition, error)`
  abbrev pub ensure : Bool → DispatchError → Dispatch S
  ensure true _ s = (ok tt, s)
  ensure false e s = (err e, s)

infixl 5 ◌>>=◌ ◌>>◌
abbrev pub ◌>>=◌ : {S A B : Type 0} → Call S A → (A → Call S B) → Call S B
◌>>=◌ m f s = let (r, s') = m s in elim r [ ok a ↦ f a s' | err e ↦ (err e, s') ]

abbrev pub ◌>>◌ : {S B : Type 0} → Dispatch S → Call S B → Call S B
m >> k = m >>= λ _. k

-- The origin of a call: `frame_system::RawOrigin`, and the Ethereum account of
-- parachain/pallets/dispatch/src/lib.rs.
pub data Origin : Type 0 where
  root : Origin
  signed : ℕ → Origin
  unsigned : Origin
  ethereum : ℕ → Origin

abbrev pub signer : Origin → Option ℕ
signer (Origin.signed who) = some who
signer _ = none

-- `frame_system::ensure_signed`
abbrev pub ensure_signed : {S : Type 0} → Origin → Call S ℕ
ensure_signed origin = ok_or (signer origin) DispatchError.bad_origin

-- A call keeps `P`, whether it succeeds or fails.
pub record Keeps {S A : Type 0} (P : S → Type 0) (m : Call S A) : Type 0 where
  pub at : (s : S) → P s → P (m s).1

-- The storage of one pallet within the storage of the chain.
pub record Part (S P : Type 0) : Type 0 where
  pub get : S → P
  pub put : P → S → S
  pub get_put : (p : P) (s : S) → get (put p s) ≡ p
  pub put_get : (s : S) → put (get s) s ≡ s

-- A call of that pallet, as a call of the chain.
abbrev pub zoom : {S P A : Type 0} → Part S P → Call P A → Call S A
zoom part m s = let (r, p) = m (part.get s) in (r, part.put p s)

-- An event that calls do not read is not modelled; a call that only deposits one does nothing.
abbrev pub deposit_event : {S : Type 0} → Dispatch S
deposit_event s = (ok tt, s)
