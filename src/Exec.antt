-- ===== src/Exec.antt =====
-- Go functions that change state and may return an error: what was done before an error stays
-- done, so the state comes back on both ways. `if err := f(); err != nil { return err }` is a bind.
pub mod Laws
use pgvolvra.Base.{ℕ, Bytes}

-- The calls out of the program that can fail.
pub data Action : Type 0 where
  read_file write_file rename_file open_file write_data sync_file close_file : Action
  put_object get_object read_object : Action
  query send_status receive connect create_slot start_replication : Action

pub data Error : Type 0 where
  failed : Action → Error
  not_exist : Bytes → Error
  bad_json : Error
  wrong_format : ℕ → Error
  wrong_slot : Bytes → Error
  stored_mismatch read_back_mismatch : Bytes → Error
  unknown_relation : ℕ → Error
  bad_message bad_number bad_lsn : Error
  slot_missing : Error
  too_long : Error
  needs_value unknown_option : Bytes → Error
  selector_required two_starts no_terminal not_verified missing_dsn : Error
  not_a_number needs_argument unknown_command bad_checksum : Bytes → Error
  endpoint_required endpoint_is_url no_bucket missing_archive : Error
  panic : Error

pub data Outcome {ℓ} (A : Type ℓ) : Type ℓ where
  ok : A → Outcome A
  err : Error → Outcome A

-- The same where nothing changes: go on with a success.
abbrev pub and_then {ℓ κ} : {A : Type ℓ} {B : Type κ} → Outcome A → (A → Outcome B) → Outcome B
and_then (ok a) f = f a
and_then (err e) f = err e

abbrev pub Exec {ℓ} : Type ℓ → Type ℓ → Type ℓ
Exec S A = S → Outcome A × S

module _ {ℓ} {S A B : Type ℓ} where
  abbrev pub proceed : Outcome A × S → (A → Exec S B) → Outcome B × S
  proceed (ok a, s) f = f a s
  proceed (err e, s) f = (err e, s)

  infixl 5 ◌>>=◌ ◌>>◌
  abbrev pub ◌>>=◌ : Exec S A → (A → Exec S B) → Exec S B
  ◌>>=◌ m f s = proceed (m s) f

  abbrev pub ◌>>◌ : Exec S A → Exec S B → Exec S B
  m >> k = m >>= λ _. k

abbrev pub pure {ℓ} : {S A : Type ℓ} → A → Exec S A
pure a s = (ok a, s)

abbrev pub throw {ℓ} : {S A : Type ℓ} → Error → Exec S A
throw e s = (err e, s)

abbrev pub gets {ℓ} : {S A : Type ℓ} → (S → A) → Exec S A
gets f s = (ok (f s), s)

abbrev pub modify : {S : Type 0} → (S → S) → Exec S (Unit {0})
modify f s = (ok tt, f s)

-- `if err := m(); err != nil { … }` where the error is looked at and not returned.
abbrev pub attempted {ℓ} : {S A : Type ℓ} → Exec S A → Exec S (Outcome A)
attempted m s = let (r, s') = m s in (ok r, s')
