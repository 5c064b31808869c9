-- ===== src/Shared/Maps/Laws.antt =====
-- What the operations on maps do to an entry, to the keys and to distinct keys.
use engarde.Shared.{
  ◌≡◌, refl, sym, ap, ◌∙◌, List, [], ◌∷◌, ◌++◌, true, false, none, some, Bool-cases, inl, inr,
  if◌then◌else◌,
}
use engarde.Shared.Maps.{
  Key, same_refl, entry, put_last, delete_entry, keys, IsDistinct, has_key, remove_key,
}

module _ {K : Type 0} ⦃key : Key K⦄ where
  pub same-sym : (a b : K) → key.same a b ≡ key.same b a
  same-sym a b = elim (Bool-cases (key.same a b)) [
    | inl e ↦
        let h : a ≡ b = (key.same_iff a b).0 e in ap (λ x. key.same x b) h ∙ ap (key.same b) (sym h)
    | inr e ↦ elim (Bool-cases (key.same b a)) [
      | inl f ↦
          let h : b ≡ a = (key.same_iff b a).0 f in
          ap (λ x. key.same x b) (sym h) ∙ ap (key.same b) h
      | inr f ↦ e ∙ sym f
    ]
  ]

  module _ {V : Type 0} where
    pub entry-delete_entry : (k : K) (m : List (K × V)) → entry (delete_entry k m) k ≡ none
    entry-delete_entry k [] = refl
    entry-delete_entry k ((a, v) ∷ m) = elim (Bool-cases (key.same a k)) [
      | inl e ↦ rw e (entry-delete_entry k m)
      | inr e ↦ rw e (rw e (entry-delete_entry k m))
    ]

    pub entry-delete_entry_other :
        (k j : K) (m : List (K × V)) → key.same k j ≡ false → entry (delete_entry k m) j ≡ entry m j
    entry-delete_entry_other k j [] d = refl
    entry-delete_entry_other k j ((a, v) ∷ m) d = elim (Bool-cases (key.same a k)) [
      | inl e ↦
          let h : a ≡ k = (key.same_iff a k).0 e in
          rw e (
            entry-delete_entry_other k j m d
            ∙ sym (ap (λ t. if t then some v else entry m j) (ap (λ x. key.same x j) h ∙ d)))
      | inr e ↦
          rw e (ap (λ t. if key.same a j then some v else t) (entry-delete_entry_other k j m d))
    ]

    -- Deleting what is not there.
    pub delete_entry-none : (k : K) (m : List (K × V)) → entry m k ≡ none → delete_entry k m ≡ m
    delete_entry-none k [] h = refl
    delete_entry-none k ((a, v) ∷ m) h = elim (Bool-cases (key.same a k)) [
      | inl e ↦ absurd (cc)
      | inr e ↦ rw e (
          ap (λ t. (a, v) ∷ t)
            (delete_entry-none k m (sym (ap (λ t. if t then some v else entry m k) e) ∙ h)))
    ]

    pub entry-append :
        (m n : List (K × V)) (k : K) → entry m k ≡ none → entry (m ++ n) k ≡ entry n k
    entry-append [] n k h = refl
    entry-append ((a, v) ∷ m) n k h = elim (Bool-cases (key.same a k)) [
      | inl e ↦ absurd (cc)
      | inr e ↦ rw e (entry-append m n k (sym (ap (λ t. if t then some v else entry m k) e) ∙ h))
    ]

    pub entry-put_last : (k : K) (v : V) (m : List (K × V)) → entry (put_last k v m) k ≡ some v
    unfolding put_last
    entry-put_last k v m =
        entry-append (delete_entry k m) ((k, v) ∷ []) k (entry-delete_entry k m)
        ∙ ap (λ t. if t then some v else none) (same_refl k)

    entry-snoc_other :
        (m : List (K × V)) (k j : K) (v : V)
        → key.same k j ≡ false
        → entry (m ++ ((k, v) ∷ [])) j ≡ entry m j
    entry-snoc_other [] k j v d = ap (λ t. if t then some v else none) d
    entry-snoc_other ((a, w) ∷ m) k j v d =
        ap (λ t. if key.same a j then some w else t) (entry-snoc_other m k j v d)

    pub entry-put_last_other :
        (k j : K) (v : V) (m : List (K × V))
        → key.same k j ≡ false
        → entry (put_last k v m) j ≡ entry m j
    unfolding put_last
    entry-put_last_other k j v m d =
        entry-snoc_other (delete_entry k m) k j v d ∙ entry-delete_entry_other k j m d

    pub keys-append : (m n : List (K × V)) → keys (m ++ n) ≡ keys m ++ keys n
    keys-append [] n = refl
    keys-append ((a, v) ∷ m) n = ap (λ t. a ∷ t) (keys-append m n)

    pub keys-delete_entry :
        (k : K) (m : List (K × V)) → keys (delete_entry k m) ≡ remove_key k (keys m)
    keys-delete_entry k [] = refl
    keys-delete_entry k ((a, v) ∷ m) = elim (Bool-cases (key.same a k)) [
      | inl e ↦ rw e (keys-delete_entry k m)
      | inr e ↦ rw e (ap (λ t. a ∷ t) (keys-delete_entry k m))
    ]

    pub has_key-keys : (k : K) (m : List (K × V)) → has_key k (keys m) ≡ false → entry m k ≡ none
    has_key-keys k [] h = refl
    has_key-keys k ((a, v) ∷ m) h = elim (Bool-cases (key.same a k)) [
      | inl e ↦ absurd (cc)
      | inr e ↦
          rw e (has_key-keys k m (sym (ap (λ t. if t then true else has_key k (keys m)) e) ∙ h))
    ]

    pub delete_entry-IsDistinct :
        (k : K) (m : List (K × V)) → IsDistinct m → IsDistinct (delete_entry k m)
    delete_entry-IsDistinct k [] d = tt
    delete_entry-IsDistinct k ((a, v) ∷ m) (absent, d) = elim (Bool-cases (key.same a k)) [
      | inl e ↦ rw e (delete_entry-IsDistinct k m d)
      | inr e ↦ rw e (
        entry-delete_entry_other k a m (same-sym k a ∙ e) ∙ absent,
        delete_entry-IsDistinct k m d,
      )
    ]

    append-IsDistinct :
        (k : K) (v : V) (m : List (K × V))
        → entry m k ≡ none
        → IsDistinct m
        → IsDistinct (m ++ ((k, v) ∷ []))
    append-IsDistinct k v [] h d = (refl, tt)
    append-IsDistinct k v ((a, w) ∷ m) h (absent, d) = elim (Bool-cases (key.same a k)) [
      | inl e ↦ absurd (cc)
      | inr e ↦ (
        entry-snoc_other m k a v (same-sym k a ∙ e) ∙ absent,
        append-IsDistinct k v m (sym (ap (λ t. if t then some w else entry m k) e) ∙ h) d,
      )
    ]

    pub put_last-IsDistinct :
        (k : K) (v : V) (m : List (K × V)) → IsDistinct m → IsDistinct (put_last k v m)
    unfolding put_last
    put_last-IsDistinct k v m d =
        append-IsDistinct k v (delete_entry k m) (entry-delete_entry k m)
          (delete_entry-IsDistinct k m d)

    pub entry-delete_entry-none :
        (k j : K) (m : List (K × V)) → entry m j ≡ none → entry (delete_entry k m) j ≡ none
    entry-delete_entry-none k j m h = elim (Bool-cases (key.same k j)) [
      | inl e ↦
          let same : k ≡ j = (key.same_iff k j).0 e in
          ap (entry (delete_entry k m)) (sym same) ∙ entry-delete_entry k m
      | inr e ↦ entry-delete_entry_other k j m e ∙ h
    ]
