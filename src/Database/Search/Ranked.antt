-- ===== src/Database/Search/Ranked.antt =====
-- What `search_by_name` of src/hawiya/db/repositories/person_repository.py answers, next to a
-- description of its own of whom a search is for.
use hawiya_ai.Prelude.{
  ℕ, ◌*◌, ◌≤◌, ◌<◌, ◌≡◌, refl, sym, ◌∙◌, ap, min, max, not, Bool, true, false, and-true, ==_iff,
  Option, none, some, List, [], ◌∷◌, ◌++◌, arith, filter, take, drop, length, take-append-drop,
  length-take, mem-filter, Each, Each-of_mem, ◌==◌,
}
use mathlib.Core.Path.{subst, fun_ext}
use mathlib.Core.List.{Perm, perm_middle, Pairwise, append_assoc}
use mathlib.Core.List.Perm
use hawiya_ai.Text.{Text}
use hawiya_ai.Models.{Uuid, Person, PersonStatus}
use hawiya_ai.Database.Search.{Postgres, is_active, score, is_above_threshold, is_candidate, ranked}

module _ (postgres : Postgres) (tenant_id : Uuid) (q : Text) where
  -- How close the names of a person come to the query: the Arabic name, the English one, or the closer
  -- of the two; a person with no name does not come close at all.
  abbrev closest : Option Text → Option Text → ℕ
  closest none none = 0
  closest (some name_ar) none = postgres.similarity name_ar q
  closest none (some name_en) = postgres.similarity name_en q
  closest (some name_ar) (some name_en) =
      max (postgres.similarity name_ar q) (postgres.similarity name_en q)

  abbrev pub closeness : Person → ℕ
  closeness p = closest p.canonical_name_ar p.canonical_name_en

  -- Whom a search is for: an active person of the tenant who is closer than 0.3.
  pub record IsWanted (p : Person) : Type 0 where
    pub own : p.tenant_id ≡ tenant_id
    pub active : p.status ≡ PersonStatus.active
    pub close : 3 * postgres.scale < 10 * closeness p

  closest-score :
      (p : Person) (ar en : Option Text)
      → p.canonical_name_ar ≡ ar
      → p.canonical_name_en ≡ en
      → score postgres q p ≡ closest ar en
  unfolding score
  closest-score p none none a e = rw (a, e) refl
  closest-score p (some ar) none a e = rw (a, e) (ground arith)
  closest-score p none (some en) a e = rw (a, e) (ground arith)
  closest-score p (some ar) (some en) a e = rw (a, e) refl

  closeness-score : (p : Person) → score postgres q p ≡ closeness p
  closeness-score p = closest-score p p.canonical_name_ar p.canonical_name_en refl refl

  is_active-eq : (s : PersonStatus) → is_active s ≡ true → s ≡ PersonStatus.active
  is_active-eq PersonStatus.active h = refl
  is_active-eq PersonStatus.merged h = absurd (ground arith)
  is_active-eq PersonStatus.archived h = absurd (ground arith)

  candidate-IsWanted : (p : Person) → is_candidate postgres tenant_id q p ≡ true → IsWanted p
  unfolding is_candidate is_above_threshold
  candidate-IsWanted p h =
      let (own, rest) = and-true _ _ h in
      let (active, close) = and-true _ _ rest in
      let score_eq = closeness-score p in
      record {
        own = (==_iff _ _).0 own;
        active = is_active-eq p.status active;
        close = ground (arith, close, score_eq);
      }

  other-unwanted : (p : Person) → is_candidate postgres tenant_id q p ≡ false → ¬ IsWanted p
  unfolding is_candidate is_above_threshold
  other-unwanted p h = λ wanted.
      let own : (p.tenant_id == tenant_id) ≡ true = (==_iff _ _).1 wanted.own in
      let active : is_active p.status ≡ true = ap is_active wanted.active in
      let close : 3 * postgres.scale < 10 * closeness p = wanted.close in
      let score_eq = closeness-score p in ground (arith, own, active, close, score_eq)

  dropped : (b : Bool) → not b ≡ true → b ≡ false
  dropped true h = absurd (ground arith)
  dropped false h = refl

  -- The rows that a test keeps and those that it drops are the rows.
  split-perm :
      (f : Person → Bool) (rows : List Person)
      → Perm (filter f rows ++ filter (λ p. not (f p)) rows) rows
  split-perm f [] = Perm.rfl
  split-perm f (p ∷ rows) = step (f p) (split-perm f rows)
    where
      step :
          (b : Bool)
          → Perm (filter f rows ++ filter (λ x. not (f x)) rows) rows
          → Perm
              ((elim b [ true ↦ p ∷ filter f rows | false ↦ filter f rows ]) ++ (elim (not b) [
                | true ↦ p ∷ filter (λ x. not (f x)) rows
                | false ↦ filter (λ x. not (f x)) rows
              ]))
              (p ∷ rows)
      step true h = Perm.cons p h
      step false h =
          Perm.trans (perm_middle (filter f rows) (filter (λ x. not (f x)) rows)) (Perm.cons p h)

  module _ (limit : ℕ) (rows : List Person) where
    -- The best of those wanted: each row is one of the best, or one of the rest that is cut off, or
    -- somebody else; the best and the rest are wanted and stand by falling closeness, nobody else is
    -- wanted, and there are as many of the best as the limit lets through.
    pub record IsBest (best : List Person) : Type 0 where
      pub rest : List Person
      pub others : List Person
      pub partition : Perm (best ++ (rest ++ others)) rows
      pub wanted : Each IsWanted (best ++ rest)
      pub unwanted : Each (λ p. ¬ IsWanted p) others
      pub falling : Pairwise (λ a b. closeness b ≤ closeness a) (best ++ rest)
      pub count : length best ≡ min limit (length (best ++ rest))

    pub ranked-IsBest : IsBest (ranked postgres tenant_id q limit rows)
    ranked-IsBest =
        let test = is_candidate postgres tenant_id q in
        let candidates = filter test rows in
        let others = filter (λ p. not (test p)) rows in
        let all = postgres.order_by_desc (score postgres q) candidates in
        let whole : take limit all ++ drop limit all ≡ all = take-append-drop limit all in
        let same : Perm all candidates =
          postgres.order_by_desc-perm (score postgres q) candidates in
        record {
          rest = drop limit all;
          others = others;
          partition =
              subst (λ (l : List Person). Perm l rows)
                (ap (λ (l : List Person). l ++ others) (sym whole)
                  ∙ append_assoc (take limit all) (drop limit all) others)
                (Perm.trans (Perm.append_right others same) (split-perm test rows));
          wanted = subst (Each IsWanted) (sym whole) (
              Each-of_mem IsWanted all
                (λ p m. candidate-IsWanted p (mem-filter test p rows ((Perm.mem_iff same).0 m))));
          unwanted =
              Each-of_mem (λ p. ¬ IsWanted p) others
                (λ p m.
                  other-unwanted p (dropped (test p) (mem-filter (λ x. not (test x)) p rows m)));
          falling =
              subst
                (λ (f : Person → ℕ). Pairwise (λ a b. f b ≤ f a) (take limit all ++ drop limit all))
                (fun_ext closeness-score)
                (subst
                  (λ (l : List Person). Pairwise (λ a b. score postgres q b ≤ score postgres q a) l)
                  (sym whole) (postgres.order_by_desc-sorted (score postgres q) candidates));
          count =
              length-take limit all ∙ ap (λ (l : List Person). min limit (length l)) (sym whole);
        }
