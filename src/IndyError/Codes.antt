-- ===== src/IndyError/Codes.antt =====
-- The codes and the names of the table of utils/indyError.ts stand for one another.
use aries_framework_javascri.Prelude.{
  ℕ, ◌≡◌, refl, sym, ap, ◌∙◌, String, Bool, true, false, not, ◌&&◌, Option, none, some, List, [],
  ◌∷◌, ◌==◌, eq_iff, inl, inr, arith, same_number, every, truthy, Bool-cases,
}
use aries_framework_javascri.Exec.{ok, indy}
use aries_framework_javascri.IndyError.{is_indy_error}
use aries_framework_javascri.IndyError.Raw.{RawError, indy_errors, name_of, is_indy_error_named}

lacks_name : String → List (ℕ × String) → Bool
lacks_name name rows = every (λ row. not (row.1 == name)) rows

distinct_names : List (ℕ × String) → Bool
unfolding lacks_name
distinct_names [] = true
distinct_names (row ∷ rest) = lacks_name row.1 rest && distinct_names rest

name_of-lacks :
    (rows : List (ℕ × String)) (code : ℕ) (name : String)
    → lacks_name name rows ≡ true
    → ¬ (name_of code rows ≡ some name)
unfolding lacks_name name_of
name_of-lacks [] code name lacks found = cc
name_of-lacks ((n, t) ∷ rest) code name lacks found =
    ground (arith, eq_iff t name, name_of-lacks rest code name)

name_of_inj :
    (rows : List (ℕ × String)) (m n : ℕ) (name : String)
    → distinct_names rows ≡ true
    → name_of m rows ≡ some name
    → name_of n rows ≡ some name
    → m ≡ n
unfolding name_of distinct_names
name_of_inj [] m n name distinct first second = absurd (cc)
name_of_inj ((k, t) ∷ rest) m n name distinct first second =
    ground (arith, name_of-lacks rest m name, name_of-lacks rest n name, name_of_inj rest m n name)

distinct : distinct_names indy_errors ≡ true
unfolding distinct_names lacks_name
distinct = refl

number_eq : (m n : ℕ) → same_number m n ≡ true → m ≡ n
number_eq m n e = ground arith

not_same : (m n : ℕ) → same_number m n ≡ false → ¬ (m ≡ n)
not_same m n other e = ground arith

same_names :
    (m n : ℕ) (a b : String)
    → name_of m indy_errors ≡ some a
    → name_of n indy_errors ≡ some b
    → (b == a) ≡ same_number m n
same_names m n a b first second = elim (Bool-cases (same_number m n)) [
  | inl same ↦
      let one : some b ≡ some a =
        sym second ∙ ap (λ k. name_of k indy_errors) (sym (number_eq m n same)) ∙ first in
      (eq_iff b a).1 (cc) ∙ sym same
  | inr other ↦ elim (Bool-cases (b == a)) [
    | inl e ↦
        let named = second ∙ ap some ((eq_iff b a).0 e) in
        absurd (not_same m n other (name_of_inj indy_errors m n a distinct first named))
    | inr e ↦ e ∙ sym other
  ]
]

-- An error of the indy-sdk without a name of its own, whose message is a code of the table, is taken
-- for the error that the table names for a second code exactly if the codes are the same, which is
-- how `is_indy_error` tells errors apart.
is_indy_error_named-is_indy_error :
    (to_number : String → Option ℕ) (error : RawError) (m n : ℕ) (a b : String)
    → error.name ≡ "IndyError"
    → truthy error.indy_name ≡ none
    → to_number error.message ≡ some m
    → name_of m indy_errors ≡ some a
    → name_of n indy_errors ≡ some b
    → truthy (some b) ≡ some b
    → is_indy_error_named to_number error (some b) ≡ ok (is_indy_error (indy m) n)
unfolding is_indy_error_named is_indy_error
is_indy_error_named-is_indy_error to_number error m n a b named bare numbered first second given =
    rw (given, named, bare, numbered, first) (ap ok (same_names m n a b first second))
