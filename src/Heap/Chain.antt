-- ===== src/Heap/Chain.antt =====
-- Linked nodes: the `NULL`-terminated chains that the pool, the slabs and the queues are made of,
-- each kept by a pointer to its first node and one to its last.
use aoq.Prelude.{
  ◌≡◌, refl, ◌≢◌, Bool, true, false, ◌||◌, Option, none, some, List, [], ◌∷◌, ◌++◌, arith, ◌==◌,
  ◌∙◌,
}
use aoq.Heap.{Ptr, null, Run, ok, ◌>>=◌, Returns, Heap, read, write, load, load-ok}

pub record Node {ℓ} (A : Type ℓ) : Type ℓ where
  pub val : A
  pub next : Ptr

-- What a chain stands for: address and value of each node, in order.
abbrev pub Cells {ℓ} : Type ℓ → Type ℓ
Cells A = List (Ptr × A)

module _ {ℓ} {A : Type ℓ} where
  abbrev pub node : A → Ptr → Node A
  node v q = record { val = v; next = q }

  -- `p->next = q`
  unfoldable pub set_next : Heap (Node A) → Ptr → Ptr → Run (Heap (Node A))
  unfolding load
  set_next h p q = do n ← load h p; ok (write h p (some (record n { next = q })))

  abbrev pub first : Cells A → Ptr
  first [] = null
  first ((p, _) ∷ _) = p

  abbrev pub last : Cells A → Ptr
  last [] = null
  last ((p, _) ∷ []) = p
  last (_ ∷ c ∷ xs) = last (c ∷ xs)

  abbrev pub has : Ptr → Cells A → Bool
  has p [] = false
  has p ((q, _) ∷ xs) = (p == q) || has p xs

  abbrev pub values : Cells A → List A
  values [] = []
  values ((_, v) ∷ xs) = v ∷ values xs

  -- The nodes are distinct and not `NULL`, each points to the one behind it, the last to `NULL`.
  abbrev pub Chain : Heap (Node A) → Cells A → Type ℓ
  Chain h [] = Unit {ℓ}
  Chain h ((p, v) ∷ xs) =
      (p ≢ null) × (read h p ≡ some (node v (first xs))) × (has p xs ≡ false) × Chain h xs

  -- `g` differs from `h` at most at `p` and at the nodes of `xs`.
  abbrev pub SameOutside : Cells A → Heap (Node A) → Heap (Node A) → Type ℓ
  SameOutside xs h g = (p : Ptr) → has p xs ≡ false → read g p ≡ read h p

  pub has-append : (p : Ptr) (xs ys : Cells A) → has p (xs ++ ys) ≡ (has p xs || has p ys)
  has-append p [] ys = refl
  has-append p ((q, v) ∷ xs) ys = ground (arith, has-append p xs ys)

  pub values-append : (xs ys : Cells A) → values (xs ++ ys) ≡ values xs ++ values ys
  values-append [] ys = refl
  values-append ((q, v) ∷ xs) ys = rw (values-append xs ys)

  pub first-append : (x : Ptr × A) (xs ys : Cells A) → first ((x ∷ xs) ++ ys) ≡ first (x ∷ xs)
  first-append (p, v) xs ys = refl

  pub last-cons : (x : Ptr × A) (xs : Cells A) → xs ≢ [] → last (x ∷ xs) ≡ last xs
  last-cons x [] ne = absurd (ne refl)
  last-cons x (y ∷ xs) ne = refl

  pub last-append : (xs : Cells A) (p : Ptr) (v : A) → last (xs ++ ((p, v) ∷ [])) ≡ p
  last-append [] p v = refl
  last-append (x ∷ []) p v = refl
  last-append (x ∷ y ∷ xs) p v = last-append (y ∷ xs) p v

  pub Chain-frame :
      (h g : Heap (Node A)) (xs : Cells A)
      → Chain h xs
      → ((p : Ptr) → has p xs ≡ true → read g p ≡ read h p)
      → Chain g xs
  Chain-frame h g [] c same = tt
  Chain-frame h g ((p, v) ∷ xs) (ne, e, out, c) same =
      (ne, same p (ground arith) ∙ e, out, Chain-frame h g xs c λ q i. same q (ground arith))

  pub Chain-write :
      (h : Heap (Node A)) (xs : Cells A) (q : Ptr) (n : Option (Node A))
      → Chain h xs
      → has q xs ≡ false
      → Chain (write h q n) xs
  unfolding read
  Chain-write h xs q n c out = Chain-frame h (write h q n) xs c λ p i. ground arith

  -- An address that is not allocated is none of the chain's.
  pub not-has_of_none :
      (h : Heap (Node A)) (xs : Cells A) (p : Ptr) → Chain h xs → read h p ≡ none → has p xs ≡ false
  not-has_of_none h [] p c e = refl
  not-has_of_none h ((q, v) ∷ xs) p (ne, f, out, c) e = ground (arith, not-has_of_none h xs p c e)

  pub first-not-null :
      (h : Heap (Node A)) (p : Ptr) (v : A) (xs : Cells A)
      → Chain h ((p, v) ∷ xs)
      → (first ((p, v) ∷ xs) == null) ≡ false
  first-not-null h p v xs (ne, e, out, c) = ground arith

  pub set_next-ok :
      (h : Heap (Node A)) (p q : Ptr) (v : A) (r : Ptr)
      → p ≢ null
      → read h p ≡ some (node v r)
      → set_next h p q ≡ ok (write h p (some (node v q)))
  unfolding set_next
  set_next-ok h p q v r ne e = rw (load-ok h p ne e)

  -- `tail->next = n` for the last node: `n`, which points to `NULL`, joins the chain.
  pub set_next-last :
      (h : Heap (Node A)) (x : Ptr × A) (xs : Cells A) (n : Ptr) (w : A)
      → Chain h (x ∷ xs)
      → n ≢ null
      → read h n ≡ some (node w null)
      → has n (x ∷ xs) ≡ false
      → Returns
          (set_next h (last (x ∷ xs)) n)
          λ g. Chain g ((x ∷ xs) ++ ((n, w) ∷ [])) × SameOutside (x ∷ xs) h g
  unfolding read
  set_next-last h (p, v) [] n w (ne, e, out, c) nn en outn = (
    write h p (some (node v n)),
    set_next-ok h p n v null ne e,
    ((ne, ground arith, ground arith, (nn, ground arith, refl, tt)), ground arith),
  )
  set_next-last h (p, v) (y ∷ xs) n w (ne, e, out, c) nn en outn =
      let (g, run, (chain, same)) = set_next-last h y xs n w c nn en (ground arith) in
      (
        g,
        run,
        (
          (ne, same p out ∙ e, ground (arith, has-append p (y ∷ xs) ((n, w) ∷ [])), chain),
          λ q o. same q (ground arith),
        ),
      )

  -- A chain that shares no node with another.
  abbrev pub Disjoint : Cells A → Cells A → Type 0
  Disjoint xs ys = (p : Ptr) → has p xs ≡ true → has p ys ≡ false
