-- ===== src/Trace/Queue.antt =====
-- The events of src/nltrace.c as a queue: the list that the links of the table form.
use nlplatform.Prelude.{
  ℕ, ◌<◌, ◌≡◌, refl, ◌∙◌, false, List, [], ◌∷◌, ◌++◌, arith, ◌==◌, All, All-append, update,
  update_self, update_ne,
}
use nlplatform.Trace.{Trace, invalid}

-- Not in the list.
abbrev pub Away : ℕ → List ℕ → Type 0
Away i xs = All (λ x. (i == x) ≡ false) xs

abbrev pub Distinct : List ℕ → Type 0
Distinct [] = Unit
Distinct (x ∷ xs) = Away x xs × Distinct xs

abbrev pub last : ℕ → List ℕ → ℕ
last d [] = d
last d (x ∷ xs) = last x xs

pub eqb_sym : (a b : ℕ) → (a == b) ≡ false → (b == a) ≡ false
eqb_sym a b h = ground arith

pub Away-last : (i d : ℕ) (xs : List ℕ) → (i == d) ≡ false → Away i xs → (i == last d xs) ≡ false
Away-last i d [] h a = h
Away-last i d (x ∷ xs) h a = Away-last i x xs a.0 a.1

pub Away-snoc : (i j : ℕ) (xs : List ℕ) → Away i (xs ++ (j ∷ [])) → Away i xs × ((i == j) ≡ false)
Away-snoc i j [] a = (tt, a.0)
Away-snoc i j (x ∷ xs) a = let (away, ne) = Away-snoc i j xs a.1 in ((a.0, away), ne)

pub All-last : (P : ℕ → Type 0) (d : ℕ) (xs : List ℕ) → P d → All P xs → P (last d xs)
All-last P d [] p h = p
All-last P d (x ∷ xs) p h = All-last P x xs h.0 h.1

pub Distinct-snoc : (i : ℕ) (xs : List ℕ) → Distinct xs → Away i xs → Distinct (xs ++ (i ∷ []))
Distinct-snoc i [] d a = (tt, tt)
Distinct-snoc i (x ∷ xs) d a = (
  All-append (λ y. (x == y) ≡ false) xs (i ∷ []) d.0 (eqb_sym i x a.0, tt),
  Distinct-snoc i xs d.1 a.1,
)

pub last-snoc : (i d : ℕ) (xs : List ℕ) → last d (xs ++ (i ∷ [])) ≡ i
last-snoc i d [] = refl
last-snoc i d (x ∷ xs) = last-snoc i x xs

module _ (max_events : ℕ) where
  abbrev pub none : ℕ
  none = invalid max_events

  abbrev pub first : List ℕ → ℕ
  first [] = none
  first (x ∷ xs) = x

  -- Each event of the list is linked to its neighbours, and the first one's predecessor is `prev`.
  abbrev pub Chain : (next_ind prev_ind : ℕ → ℕ) → (prev : ℕ) → List ℕ → Type 0
  Chain nx px prev [] = Unit
  Chain nx px prev (x ∷ xs) = (px x ≡ prev) × (nx x ≡ first xs) × Chain nx px x xs

  -- The queue that the table holds. What is not in it is free.
  pub record IsQueue (tr : Trace) (xs : List ℕ) : Type 0 where
    pub chain : Chain tr.next_ind tr.prev_ind none xs
    pub head : tr.head_ind ≡ first xs
    pub tail : tr.tail_ind ≡ last none xs
    pub distinct : Distinct xs
    pub in_table : All (λ x. x < max_events) xs
    pub named : All (λ x. 0 < tr.name x) xs
    pub free :
        (i : ℕ)
        → i < max_events
        → Away i xs
        → (tr.name i ≡ 0) × (tr.next_ind i ≡ none) × (tr.prev_ind i ≡ none) × (tr.end_us i ≡ 0)

  -- Links of other entries do not matter.
  pub Chain-next :
      (nx px : ℕ → ℕ) (prev i v : ℕ) (xs : List ℕ)
      → Away i xs
      → Chain nx px prev xs
      → Chain (update nx i v) px prev xs
  Chain-next nx px prev i v [] a c = tt
  Chain-next nx px prev i v (x ∷ xs) a c = (c.0, ground arith, Chain-next nx px x i v xs a.1 c.2)

  pub Chain-prev :
      (nx px : ℕ → ℕ) (prev i v : ℕ) (xs : List ℕ)
      → Away i xs
      → Chain nx px prev xs
      → Chain nx (update px i v) prev xs
  Chain-prev nx px prev i v [] a c = tt
  Chain-prev nx px prev i v (x ∷ xs) a c = (ground arith, c.1, Chain-prev nx px x i v xs a.1 c.2)

  -- The first event's predecessor, changed.
  pub Chain-relink :
      (nx px : ℕ → ℕ) (prev v x : ℕ) (xs : List ℕ)
      → Away x xs
      → Chain nx px prev (x ∷ xs)
      → Chain nx (update px x v) v (x ∷ xs)
  Chain-relink nx px prev v x xs a c = (update_self px x v, c.1, Chain-prev nx px x x v xs a c.2)

  -- One more at the end.
  pub Chain-snoc :
      (nx px : ℕ → ℕ) (prev i : ℕ) (xs : List ℕ)
      → Distinct xs
      → Away i xs
      → All (λ x. (prev == x) ≡ false) xs
      → Chain nx px prev xs
      → Chain
          (update (update nx (last prev xs) i) i none)
          (update px i (last prev xs))
          prev
          (xs ++ (i ∷ []))
  Chain-snoc nx px prev i [] d a o c =
      (update_self px i prev, update_self (update nx prev i) i none, tt)
  Chain-snoc nx px prev i (x ∷ []) d a o c = (
    update_ne px i x x a.0 ∙ c.0,
    update_ne (update nx x i) i x none a.0 ∙ update_self nx x i,
    Chain-snoc nx px x i [] tt tt tt tt,
  )
  Chain-snoc nx px prev i (x ∷ y ∷ ys) d a o c = (
    update_ne px i x (last y ys) a.0 ∙ c.0,
    update_ne (update nx (last y ys) i) i x none a.0
        ∙ update_ne nx (last y ys) x i (eqb_sym x (last y ys) (Away-last x y ys d.0.0 d.0.1))
        ∙ c.1,
    Chain-snoc nx px x i (y ∷ ys) d.1 a.1 d.0 c.2,
  )
