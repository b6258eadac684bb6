-- ===== src/Quiet/Open.antt =====
-- internal/application: the email and the username of a new registration against the rows of the
-- table.
use ofm_registration_saga_se.Prelude.{
  String, Bool, true, false, not, ◌&&◌, ◌||◌, none, some, List, [], ◌∷◌, ◌≡◌, ◌≢◌, refl, sym, subst,
  ◌∙◌, ◌==◌, eq_iff, inl, inr, Bool-cases,
}
use ofm_registration_saga_se.Domain.{Session, SessionStatus, is_failed, is_completed}
use ofm_registration_saga_se.Store.{latest, newer}
use ofm_registration_saga_se.Store.Unique.{AllDiffer, IsUnique, differ_to}
use ofm_registration_saga_se.Application.Mapper.{taken}

-- The statuses but failed and completed.
abbrev is_open : SessionStatus → Bool
is_open SessionStatus.started = true
is_open SessionStatus.in_progress = true
is_open SessionStatus.code_sent = true
is_open SessionStatus.verifying_email = true
is_open SessionStatus.activating_user = true
is_open SessionStatus.tokens_claimed = true
is_open SessionStatus.completed = false
is_open SessionStatus.failed = false

-- Whether some row with a value in a column is open.
abbrev pub has_open : (Session → String) → String → List Session → Bool
has_open column v [] = false
has_open column v (s ∷ rest) = (column s == v && is_open s.status) || has_open column v rest

abbrev pub AllOther : (Session → String) → Session → List Session → Type 0
AllOther column s [] = Unit
AllOther column s (t ∷ rest) = (column t ≢ column s) × AllOther column s rest

-- No two rows share a value in the column.
abbrev pub IsIndex : (Session → String) → List Session → Type 0
IsIndex column [] = Unit
IsIndex column (s ∷ rest) = AllOther column s rest × IsIndex column rest

other_emails : (s : Session) (l : List Session) → AllDiffer s l → AllOther (λ r. r.email) s l
other_emails s [] h = tt
other_emails s (t ∷ rest) h = (h.0.1, other_emails s rest h.1)

other_usernames : (s : Session) (l : List Session) → AllDiffer s l → AllOther (λ r. r.username) s l
other_usernames s [] h = tt
other_usernames s (t ∷ rest) h = (h.0.2, other_usernames s rest h.1)

pub unique_emails : (l : List Session) → IsUnique l → IsIndex (λ r. r.email) l
unique_emails [] h = tt
unique_emails (s ∷ rest) h = (other_emails s rest h.0, unique_emails rest h.1)

pub unique_usernames : (l : List Session) → IsUnique l → IsIndex (λ r. r.username) l
unique_usernames [] h = tt
unique_usernames (s ∷ rest) h = (other_usernames s rest h.0, unique_usernames rest h.1)

or_false : (b : Bool) → (b || false) ≡ b
or_false true = refl
or_false false = refl

taken-is_open : (s : Session) → taken (some s) ≡ is_open s.status
unfolding taken
taken-is_open s = at s.status
  where
    at : (st : SessionStatus) → (not (is_failed st) && not (is_completed st)) ≡ is_open st
    at SessionStatus.started = refl
    at SessionStatus.in_progress = refl
    at SessionStatus.code_sent = refl
    at SessionStatus.verifying_email = refl
    at SessionStatus.activating_user = refl
    at SessionStatus.tokens_claimed = refl
    at SessionStatus.completed = refl
    at SessionStatus.failed = refl

module _ (column : Session → String) (v : String) where
  -- A value that a row has, and so no other.
  absent :
      (s : Session) (l : List Session)
      → column s ≡ v
      → AllOther column s l
      → (latest (λ r. column r == v) l ≡ none) × (has_open column v l ≡ false)
  unfolding latest
  absent s [] e h = (refl, refl)
  absent s (t ∷ rest) e h =
      let other : (column t == v) ≡ false =
        subst (λ x. (column t == x) ≡ false) e (differ_to (column t) (column s) h.0) in
      let (no_row, not_open) = absent s rest e h.1 in
      (rw (other, no_row) refl, rw (other, not_open) refl)

  -- In a column that is an index, the row that a lookup takes is the only one.
  pub taken-has_open :
      (l : List Session)
      → IsIndex column l
      → taken (latest (λ r. column r == v) l) ≡ has_open column v l
  unfolding latest newer
  taken-has_open [] h = unfold taken in refl
  taken-has_open (s ∷ rest) h = elim (Bool-cases (column s == v)) [
    | inr e ↦ rw e (taken-has_open rest h.1)
    | inl e ↦
        let (no_row, not_open) = absent s rest ((eq_iff (column s) v).0 e) h.0 in
        rw (e, no_row, not_open) (taken-is_open s ∙ sym (or_false (is_open s.status)))
  ]
