-- ===== src/ObjectId/Codec/Search.antt =====
-- Where a byte stands last in a string made of parts.
use filecache.Base.{
  ℕ, suc, ◌≡◌, refl, ap, ◌∙◌, ◌⊎◌, inl, inr, Bool, true, none, some, [], ◌∷◌, ◌++◌, arith, ◌==◌,
  Bool-cases, Option-cases, Bytes, length, drop,
}
use filecache.ObjectId.{dot, byte_at, find_last, is_dot_or_slash, get_file_extension}

module _ (p : ℕ → Bool) where
  pub find_last-append_none :
      (xs ys : Bytes) → find_last p ys ≡ none → find_last p (xs ++ ys) ≡ find_last p xs
  unfolding find_last
  find_last-append_none [] ys h = h
  find_last-append_none (x ∷ xs) ys h = rw (find_last-append_none xs ys h)

  pub find_last-append_some :
      (xs ys : Bytes) (c : ℕ)
      → p c ≡ true
      → find_last p ys ≡ none
      → find_last p (xs ++ c ∷ ys) ≡ some (length xs)
  unfolding find_last
  find_last-append_some [] ys c hit h = rw (h, hit)
  find_last-append_some (x ∷ xs) ys c hit h = rw (find_last-append_some xs ys c hit h)

  -- What stands at the position that is found, and behind it.
  pub record Found (xs : Bytes) (i : ℕ) : Type 0 where
    pub tail : Bytes
    pub rest : drop i xs ≡ byte_at xs i ∷ tail
    pub hit : p (byte_at xs i) ≡ true
    pub last : find_last p tail ≡ none

  pub find_last-Found : (xs : Bytes) (i : ℕ) → find_last p xs ≡ some i → Found xs i
  unfolding find_last
  find_last-Found [] i h = cc
  find_last-Found (x ∷ xs) i h = elim (Option-cases (find_last p xs)) [
    | inr (j, e) ↦
        let f = find_last-Found xs j e in
        let s : i ≡ suc j = ground arith in
        rw s (record { tail = f.tail; rest = f.rest; hit = f.hit; last = f.last })
    | inl e ↦
        let s : (i ≡ 0) × (p x ≡ true) = (ground arith, ground arith) in
        rw (s.0) (record { tail = xs; rest = refl; hit = s.1; last = e })
  ]

find_last-dot :
    (xs : Bytes) → find_last is_dot_or_slash xs ≡ none → find_last (λ b. b == dot) xs ≡ none
unfolding find_last
find_last-dot [] h = refl
find_last-dot (x ∷ xs) h = elim (Option-cases (find_last is_dot_or_slash xs)) [
  | inr (j, e) ↦ ground arith
  | inl e ↦ rw (find_last-dot xs e) (ground arith)
]

-- An extension is empty, or a dot with no second one behind it.
pub get_file_extension-cases :
    (file : Bytes)
    → (get_file_extension file ≡ [])
      ⊎ ((ys : Bytes) × (get_file_extension file ≡ dot ∷ ys)
          × (find_last (λ b. b == dot) ys ≡ none))
unfolding get_file_extension
get_file_extension-cases file = elim (Option-cases (find_last is_dot_or_slash file)) [
  | inl e ↦ inl (rw (e, get_file_extension))
  | inr (i, e) ↦
      let f = find_last-Found is_dot_or_slash file i e in
      elim (Bool-cases (byte_at file i == dot)) [
        | inl d ↦ inr (
          f.tail,
          rw (e, get_file_extension) (rw d (f.rest ∙ ap (λ b. b ∷ f.tail) (ground arith))),
          find_last-dot f.tail f.last,
        )
        | inr d ↦ inl (rw (e, get_file_extension) (rw d))
      ]
]
