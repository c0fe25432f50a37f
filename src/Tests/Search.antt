-- ===== src/Tests/Search.antt =====
-- Witnesses for the name search: a similarity that is one for equal texts and a half for others, and an insertion sort.
use hawiya_ai.Prelude.{
  ℕ, ◌≤◌, ◌≡◌, refl, sym, Bool, true, false, leb, leb→le, none, some, List, [], ◌∷◌, map, length,
  arith, if◌then◌else◌, is_empty,
}
use mathlib.Core.List.{Perm, Pairwise, Pairwise-singleton, Mem, eq-or-mem_of_mem-cons}
use mathlib.Core.List.Perm
use mathlib.Core.Logic.Or
use mathlib.Core.Path.{subst}
use native.Mathlib.Bridge.{le_prop}
use hawiya_ai.Text.{Text, text, text_eq}
use hawiya_ai.Text.Strip.{strip, lstrip_if, rstrip_if, is_space}
use hawiya_ai.Models.{Person}
use hawiya_ai.Database.Search.{Postgres, score, is_candidate, is_above_threshold, ranked}
use hawiya_ai.Api.Types.{Database, reply}
use hawiya_ai.Api.Persons.Search.{
  PersonSearchRequest, search_request, is_accepted, to_summary, answered, FindsBest,
  search_persons-FindsBest, search_max_limit,
}
use hawiya_ai.Tests.Sample.{tables, person}

module _ (key : Person → ℕ) where
  placed : Bool → Person → Person → (inner rest : List Person) → List Person
  placed true x y inner rest = x ∷ y ∷ rest
  placed false x y inner rest = y ∷ inner

  insert : Person → List Person → List Person
  insert x [] = x ∷ []
  insert x (y ∷ ys) = placed (leb (key y) (key x)) x y (insert x ys) ys

  pub sort : List Person → List Person
  sort [] = []
  sort (x ∷ xs) = insert x (sort xs)

  insert-perm : (x : Person) (ys : List Person) → Perm (insert x ys) (x ∷ ys)
  unfolding insert placed
  insert-perm x [] = Perm.rfl
  insert-perm x (y ∷ ys) = step (leb (key y) (key x)) (insert-perm x ys)
    where
      step :
          (b : Bool)
          → Perm (insert x ys) (x ∷ ys)
          → Perm (placed b x y (insert x ys) ys) (x ∷ y ∷ ys)
      step true p = Perm.rfl
      step false p = Perm.trans (Perm.cons y p) (Perm.swap x y ys)

  pub sort-perm : (xs : List Person) → Perm (sort xs) xs
  unfolding sort
  sort-perm [] = Perm.rfl
  sort-perm (x ∷ xs) = Perm.trans (insert-perm x (sort xs)) (Perm.cons x (sort-perm xs))

  abbrev IsFalling : List Person → Type 0
  IsFalling = Pairwise (λ a b. key b ≤ key a)

  abbrev IsAbove : Person → List Person → Type 0
  IsAbove a l = (b : Person) → Mem b l → key b ≤ key a

  IsAbove-cons : (a b : Person) (l : List Person) → key b ≤ key a → IsAbove a l → IsAbove a (b ∷ l)
  IsAbove-cons a b l h above = λ c m.
      Or.elim le_prop (eq-or-mem_of_mem-cons m) (λ e. subst (λ d. key d ≤ key a) (sym e) h)
        (above c)

  insert-IsFalling : (x : Person) {ys : List Person} → IsFalling ys → IsFalling (insert x ys)
  unfolding insert placed
  insert-IsFalling x Pairwise.nil = Pairwise-singleton _ x
  insert-IsFalling x (Pairwise.cons {a = y} {l = ys} above s) =
      step (leb (key y) (key x)) refl (insert-IsFalling x s)
    where
      step :
          (b : Bool)
          → leb (key y) (key x) ≡ b
          → IsFalling (insert x ys)
          → IsFalling (placed b x y (insert x ys) ys)
      step true e p =
          let h : key y ≤ key x = leb→le _ _ e in
          Pairwise.cons (IsAbove-cons x y ys h (λ c m. let k = above c m in omega (arith, h, k)))
            (Pairwise.cons above s)
      step false e p =
          let h : key x ≤ key y = ground arith in
          Pairwise.cons
            (λ c m. IsAbove-cons y x ys h above c ((Perm.mem_iff (insert-perm x ys)).0 m)) p

  pub sort-IsFalling : (xs : List Person) → IsFalling (sort xs)
  unfolding sort
  sort-IsFalling [] = Pairwise.nil
  sort-IsFalling (x ∷ xs) = insert-IsFalling x (sort-IsFalling xs)

abbrev pub postgres : Postgres
postgres = record {
  similarity = λ name q. if text_eq name q then 10 else 5;
  scale = 10;
  order_by_desc = sort;
  order_by_desc-perm = sort-perm;
  order_by_desc-sorted = sort-IsFalling;
}

abbrev anna : Text
anna = text " ANNA MARIA ERIKSSON"

words : is_empty (strip anna) ≡ false
unfolding strip lstrip_if rstrip_if is_space
words = refl

abbrev body : PersonSearchRequest
body = record { query = anna; limit = 10 }

abbrev db : Database
db = record { tables = tables; drawn = 1 }

accepted : search_request anna none ≡ some body
unfolding search_request is_accepted
accepted = refl

search_persons-FindsBest_example :
    (best : List Person) × (answered postgres 1 none body db
      ≡ (some (reply (map to_summary best)), db))
    × (length best ≤ search_max_limit)
    × FindsBest postgres 1 none body db best
search_persons-FindsBest_example =
    search_persons-FindsBest postgres 1 none body db anna none accepted

abbrev stranger : Person
stranger = record person { person_uuid = 5; canonical_name_en = some (text "ANNA") }

abbrev crowd : List Person
crowd = stranger ∷ person ∷ []

crowd_order : ranked postgres 1 (strip anna) 2 crowd ≡ person ∷ stranger ∷ []
unfolding score is_candidate is_above_threshold sort insert placed strip lstrip_if rstrip_if
    is_space text_eq
crowd_order = refl
