-- ===== src/ErrorTexts/Agree.antt =====
-- The three functions for the texts of an error code agree.
use melsec_mc_net.Prelude.{
  All, ◌≢◌, ℕ, ◌==◌, if◌then◌else◌, ◌≡◌, refl, sym, ◌∙◌, Option, none, some, List, [], ◌∷◌, inl,
  inr, Option-cases, Bool-cases, ==_iff,
}
use mathlib.Core.Option.{some-injective}
use mathlib.Core.Path.{subst}
use melsec_mc_net.Machine.{
  ErrorCode, success, error_failed, malloc_failed, invalid_parameter, parse_address_failed,
  build_core_cmd_failed, socket_send_failed, socket_recv_failed, response_header_failed,
  connection_closed, unknown_error,
}
use melsec_mc_net.ErrorTexts.{
  number, ErrorInfo, error_info_table, find_info, mc_get_error_message, mc_get_error_recovery_hint,
  mc_get_error_info,
}

-- The entry that is found has the code, and what holds of all entries.
find_info-some :
    (P : ErrorInfo → Type 0) (code : ℕ) (entries : List ErrorInfo) (e : ErrorInfo)
    → All P entries
    → find_info code entries ≡ some e
    → (e.code ≡ code) × P e
unfolding find_info
find_info-some P code [] e all h = cc
find_info-some P code (x ∷ entries) e (this, later) h = elim (Bool-cases (x.code == code)) [
  | inl same ↦
      let found : x ≡ e = some-injective _ _ (sym (rw (same, if◌then◌else◌) refl) ∙ h) in
      subst (λ y. (y.code ≡ code) × P y) found ((==_iff x.code code).0 same, this)
  | inr other ↦ find_info-some P code entries e later (sym (rw (other, if◌then◌else◌) refl) ∙ h)
]

abbrev IsNumber : ErrorInfo → Type 0
IsNumber e = (c : ErrorCode) × (number c ≡ e.code)

error_info_table-codes : All IsNumber error_info_table
unfolding error_info_table number
error_info_table-codes = (
  (success, refl),
  (
    (error_failed, refl),
    (
      (malloc_failed, refl),
      (
        (invalid_parameter, refl),
        (
          (parse_address_failed, refl),
          (
            (build_core_cmd_failed, refl),
            (
              (socket_send_failed, refl),
              (
                (socket_recv_failed, refl),
                (
                  (response_header_failed, refl),
                  ((connection_closed, refl), ((unknown_error, refl), tt)),
                ),
              ),
            ),
          ),
        ),
      ),
    ),
  ),
)

-- Every code of the enumeration has an entry.
info-number : (c : ErrorCode) → (mc_get_error_info (number c)).code ≡ number c
unfolding number mc_get_error_info find_info error_info_table
info-number success = refl
info-number error_failed = refl
info-number malloc_failed = refl
info-number invalid_parameter = refl
info-number parse_address_failed = refl
info-number build_core_cmd_failed = refl
info-number socket_send_failed = refl
info-number socket_recv_failed = refl
info-number response_header_failed = refl
info-number connection_closed = refl
info-number unknown_error = refl

undefined_info :
    (code : ℕ)
    → ((c : ErrorCode) → number c ≢ code)
    → (o : Option ErrorInfo) → find_info code error_info_table ≡ o
    → o ≡ none
undefined_info code no_number none e = refl
undefined_info code no_number (some x) e =
    let (same, (c, is_number)) =
      find_info-some IsNumber code error_info_table x error_info_table-codes e in
    absurd (no_number c (is_number ∙ same))

-- For every number: the entry, the message and the hint of it agree. A number that the enumeration
-- has is the code of its entry, and any other number has the entry of an unknown error, whose message
-- is that of an undefined one.
pub mc_get_error_info-agrees :
    (code : ℕ)
    → ((mc_get_error_info code).message ≡ mc_get_error_message code)
      × ((mc_get_error_info code).recovery_hint ≡ mc_get_error_recovery_hint code)
      × ((c : ErrorCode) → number c ≡ code → (mc_get_error_info code).code ≡ code)
      × (((c : ErrorCode) → number c ≢ code)
          → ((mc_get_error_info code).code ≡ number unknown_error)
            × (mc_get_error_message code ≡ "Undefined error"))
unfolding mc_get_error_info mc_get_error_message mc_get_error_recovery_hint
mc_get_error_info-agrees code = (
  elim (Option-cases (find_info code error_info_table)) [
    | inl missing ↦ rw (missing, mc_get_error_info) (rw (missing, mc_get_error_message) refl)
    | inr (e, there) ↦ rw (there, mc_get_error_info) (rw (there, mc_get_error_message) refl)
  ],
  elim (Option-cases (find_info code error_info_table)) [
    | inl missing ↦ rw (missing, mc_get_error_info) (rw (missing, mc_get_error_recovery_hint) refl)
    | inr (e, there) ↦ rw (there, mc_get_error_info) (rw (there, mc_get_error_recovery_hint) refl)
  ],
  λ c e. subst (λ n. (mc_get_error_info n).code ≡ n) e (info-number c),
  λ no_number.
      let none_found = undefined_info code no_number (find_info code error_info_table) refl in
      (rw (none_found, mc_get_error_info) refl, rw (none_found, mc_get_error_message) refl),
)
