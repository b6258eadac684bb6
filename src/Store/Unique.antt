-- ===== src/Store/Unique.antt =====
-- migration/postgres/000001: what the keys amount to, as rows that differ.
use ofm_registration_saga_se.Prelude.{
  String, Bool, true, false, ◌||◌, List, [], ◌∷◌, ◌≡◌, ◌≢◌, refl, arith, ◌==◌, eq_iff, inl, inr,
  Bool-cases,
}
use ofm_registration_saga_se.Domain.{Session, Step, same_key}
use ofm_registration_saga_se.Store.{Db, clashes, same_step, has_step}
use ofm_registration_saga_se.Store.Statement.{Stmt, run}
use ofm_registration_saga_se.Store.Keys.{IsIndexed, IsKeyed, run-IsSound}
use ofm_registration_saga_se.Store.StepOrder.{same_key_refl, same_key-eq}

-- Two sessions share neither id nor email nor username.
abbrev pub Differ : Session → Session → Type 0
Differ s t = (t.session_id ≢ s.session_id) × (t.email ≢ s.email) × (t.username ≢ s.username)

abbrev pub AllDiffer : Session → List Session → Type 0
AllDiffer s [] = Unit
AllDiffer s (t ∷ rest) = Differ s t × AllDiffer s rest

abbrev pub IsUnique : List Session → Type 0
IsUnique [] = Unit
IsUnique (s ∷ rest) = AllDiffer s rest × IsUnique rest

-- Two steps of one session have different keys.
abbrev pub IsApart : Step → List Step → Type 0
IsApart p [] = Unit
IsApart p (q ∷ rest) = (q.session_id ≡ p.session_id → q.step_key ≢ p.step_key) × IsApart p rest

abbrev pub HasOneOfEach : List Step → Type 0
HasOneOfEach [] = Unit
HasOneOfEach (p ∷ rest) = IsApart p rest × HasOneOfEach rest

pub record IsConsistent (db : Db) : Type 0 where
  pub unique : IsUnique db.sessions
  pub one_of_each : HasOneOfEach db.steps

pub differ_of : (a b : String) → (a == b) ≡ false → a ≢ b
differ_of a b h e = ground (arith, eq_iff a b, e)

pub differ_to : (a b : String) → a ≢ b → (a == b) ≡ false
differ_to a b h = elim (Bool-cases (a == b)) [ inl e ↦ elim (h ((eq_iff a b).0 e)) [ ] | inr e ↦ e ]

all_false :
    (a b c d : Bool)
    → (a || b || c || d) ≡ false
    → (a ≡ false) × (b ≡ false) × (c ≡ false) × (d ≡ false)
all_false a b c d h = (ground arith, ground arith, ground arith, ground arith)

pub clashes-AllDiffer : (s : Session) (l : List Session) → clashes s l ≡ false → AllDiffer s l
unfolding clashes
clashes-AllDiffer s [] h = tt
clashes-AllDiffer s (t ∷ rest) h =
    let n =
      all_false (t.session_id == s.session_id) (t.email == s.email) (t.username == s.username)
        (clashes s rest) h in
    ((differ_of _ _ n.0, differ_of _ _ n.1, differ_of _ _ n.2), clashes-AllDiffer s rest n.3)

AllDiffer-clashes : (s : Session) (l : List Session) → AllDiffer s l → clashes s l ≡ false
unfolding clashes
AllDiffer-clashes s [] h = refl
AllDiffer-clashes s (t ∷ rest) h =
    rw
      (
        differ_to t.session_id s.session_id h.0.0,
        differ_to t.email s.email h.0.1,
        differ_to t.username s.username h.0.2,
      )
      (AllDiffer-clashes s rest h.1)

IsIndexed-IsUnique : (l : List Session) → IsIndexed l → IsUnique l
IsIndexed-IsUnique [] h = tt
IsIndexed-IsUnique (s ∷ rest) h = (clashes-AllDiffer s rest h.0, IsIndexed-IsUnique rest h.1)

pub IsUnique-IsIndexed : (l : List Session) → IsUnique l → IsIndexed l
IsUnique-IsIndexed [] h = tt
IsUnique-IsIndexed (s ∷ rest) h = (AllDiffer-clashes s rest h.0, IsUnique-IsIndexed rest h.1)

has_step-IsApart :
    (p : Step) (l : List Step) → has_step p.session_id p.step_key l ≡ false → IsApart p l
unfolding has_step same_step
has_step-IsApart p [] h = tt
has_step-IsApart p (q ∷ rest) h = (
  λ same key.
      let matches : same_key q.step_key p.step_key ≡ true = rw key (same_key_refl p.step_key) in
      ground (arith, eq_iff q.session_id p.session_id, same),
  has_step-IsApart p rest (ground arith),
)

IsApart-has_step :
    (p : Step) (l : List Step) → IsApart p l → has_step p.session_id p.step_key l ≡ false
unfolding has_step same_step
IsApart-has_step p [] h = refl
IsApart-has_step p (q ∷ rest) h = elim (Bool-cases (same_step p.session_id p.step_key q)) [
  | inl e ↦
      elim (h.0 ((eq_iff q.session_id p.session_id).0 (ground arith))
        (same_key-eq q.step_key p.step_key (ground arith))) [ ]
  | inr e ↦ rw e (IsApart-has_step p rest h.1)
]

IsKeyed-HasOneOfEach : (l : List Step) → IsKeyed l → HasOneOfEach l
IsKeyed-HasOneOfEach [] h = tt
IsKeyed-HasOneOfEach (p ∷ rest) h = (has_step-IsApart p rest h.0, IsKeyed-HasOneOfEach rest h.1)

pub HasOneOfEach-IsKeyed : (l : List Step) → HasOneOfEach l → IsKeyed l
HasOneOfEach-IsKeyed [] h = tt
HasOneOfEach-IsKeyed (p ∷ rest) h = (IsApart-has_step p rest h.0, HasOneOfEach-IsKeyed rest h.1)

pub run-IsConsistent : (qs : List Stmt) (db : Db) → IsConsistent db → IsConsistent (run qs db)
run-IsConsistent qs db h =
    let sound = run-IsSound qs db (record {
      indexed = IsUnique-IsIndexed db.sessions h.unique;
      keyed = HasOneOfEach-IsKeyed db.steps h.one_of_each;
    }) in
    record {
      unique = IsIndexed-IsUnique (run qs db).sessions sound.indexed;
      one_of_each = IsKeyed-HasOneOfEach (run qs db).steps sound.keyed;
    }
