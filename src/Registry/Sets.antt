-- ===== src/Registry/Sets.antt =====
-- The registry as a map from channels to the queues that are registered and live.
use cpp_ipc_dds.Common.{
  ℕ, ◌≡◌, refl, sym, ap, ap₂, ◌∙◌, ◌⊎◌, inl, inr, Bool, true, false, not, ◌&&◌, Option, none, some,
  List, [], ◌∷◌, ◌++◌, arith, ◌==◌, if◌then◌else◌, Bool-cases,
}
use cpp_ipc_dds.Registry.{
  ChannelKey, same_key, RegistryMap, find, keep, elem, lives, registered, register_subscriber,
  unregister_subscriber, need_cleanup, subscriber_snapshot, Call, register, unregister, snapshot,
  destroy, answers,
}
use cpp_ipc_dds.Registry.Entries.{
  same_key→eq, queues, queues-put, queues-put_or_erase, keep-keep, keep-append, keep_ext,
  registered_lem,
}

-- Each channel has its list; a queue that is destroyed is in none.
abbrev pub Sets : Type 0
Sets = ChannelKey → List ℕ

abbrev pub others : ℕ → ℕ → Bool
others q x = not (x == q)

abbrev pub changed : ChannelKey → List ℕ → Sets → Sets
changed k v s k' = if same_key k' k then v else s k'

unfoldable pub added : List ℕ → ℕ → List ℕ → List ℕ
unfolding elem
added dead q v = if lives dead q && not (elem q v) then v ++ q ∷ [] else v

unfoldable pub set_answers : List Call → List ℕ → Sets → List (List ℕ)
unfolding same_key added keep
set_answers [] dead s = []
set_answers (register k q ∷ os) dead s = set_answers os dead (changed k (added dead q (s k)) s)
set_answers (unregister k q ∷ os) dead s = set_answers os dead (changed k (keep (others q) (s k)) s)
set_answers (snapshot k ∷ os) dead s = s k ∷ set_answers os dead s
set_answers (destroy q ∷ os) dead s = set_answers os (q ∷ dead) (λ k. keep (others q) (s k))

-- What lives of the elements of the map.
pub Refines : List ℕ → RegistryMap → Sets → Type 0
Refines dead m s = (k : ChannelKey) → keep (lives dead) (queues k m) ≡ s k

-- A map in which the element of `k` is now `v`.
changes :
    (dead : List ℕ) (k : ChannelKey) (v w : List ℕ) (m m' : RegistryMap) (s : Sets)
    → Refines dead m s
    → ((k' : ChannelKey) → queues k' m' ≡ (if same_key k' k then v else queues k' m))
    → keep (lives dead) v ≡ w
    → Refines dead m' (changed k w s)
unfolding Refines
changes dead k v w m m' s r h e k' = elim (Bool-cases (same_key k' k)) [
  | inl own ↦ rw (h k', own, e) refl
  | inr other ↦ rw (h k', other, r k') refl
]

-- Another element of the same queues.
same_sets :
    (dead : List ℕ) (k : ChannelKey) (m : RegistryMap) (s : Sets)
    → Refines dead m (changed k (s k) s)
    → Refines dead m s
unfolding Refines
same_sets dead k m s r k' = elim (Bool-cases (same_key k' k)) [
  | inl own ↦ rw own at (r k') ∙ ap s (sym (same_key→eq k' k own))
  | inr other ↦ rw other at (r k')
]

-- A map whose elements stay.
queues_self :
    (k k' : ChannelKey) (m : RegistryMap)
    → queues k' m ≡ (if same_key k' k then queues k m else queues k' m)
queues_self k k' m = elim (Bool-cases (same_key k' k)) [
  | inl own ↦ rw own (ap (λ x. queues x m) (same_key→eq k' k own))
  | inr other ↦ rw other refl
]

find_cases : (o : Option (List ℕ)) → (o ≡ none) ⊎ ((v : List ℕ) × (o ≡ some v))
find_cases none = inl refl
find_cases (some v) = inr (v, refl)

register-Refines :
    (dead : List ℕ) (k : ChannelKey) (q : ℕ) (m : RegistryMap) (s : Sets)
    → Refines dead m s
    → Refines dead (register_subscriber dead k q m) (changed k (added dead q (s k)) s)
unfolding register_subscriber added Refines
register-Refines dead k q m s r =
    let v : List ℕ = queues k m in
    let has : elem q (s k) ≡ registered dead q v =
      sym (ap (elem q) (r k)) ∙ sym (registered_lem dead q v) in
    elim (Bool-cases (lives dead q)) [
      | inr gone ↦ rw gone (changes dead k v (s k) m _ s r (λ k'. queues-put k k' v m) (r k))
      | inl live ↦ elim (Bool-cases (registered dead q v)) [
        | inl old ↦
            rw (live, old, has ∙ old)
              (changes dead k v (s k) m _ s r (λ k'. queues-put k k' v m) (r k))
        | inr new ↦
            let one : keep (lives dead) (q ∷ []) ≡ q ∷ [] = unfold keep in rw live refl in
            rw (live, new, has ∙ new)
              (changes dead k (v ++ q ∷ []) (s k ++ q ∷ []) m _ s r
                (λ k'. queues-put k k' (v ++ q ∷ []) m)
                (keep-append (lives dead) v (q ∷ []) ∙ ap₂ (λ a b. a ++ b) (r k) one))
      ]
    ]

-- What is left behind the loop of `unregister_subscriber`.
left_over :
    (dead : List ℕ) (q x : ℕ)
    → ((lives dead x && not (lives dead q && x == q)) && lives dead x)
      ≡ (lives dead x && others q x)
left_over dead q x = elim (Bool-cases (x == q)) [
  | inl e ↦ let same : x ≡ q = ground (arith, e) in rw (e, same) (bools (lives dead q))
  | inr ne ↦ rw ne (bools' (lives dead x) (lives dead q))
]
  where
    bools : (a : Bool) → ((a && not (a && true)) && a) ≡ (a && false)
    bools true = refl
    bools false = refl

    bools' : (a b : Bool) → ((a && not (b && false)) && a) ≡ (a && true)
    bools' true true = refl
    bools' true false = refl
    bools' false true = refl
    bools' false false = refl

twice : (a : Bool) → (a && a) ≡ a
twice true = refl
twice false = refl

unregister-Refines :
    (dead : List ℕ) (k : ChannelKey) (q : ℕ) (m : RegistryMap) (s : Sets)
    → Refines dead m s
    → Refines dead (unregister_subscriber dead k q m) (changed k (keep (others q) (s k)) s)
unfolding unregister_subscriber Refines
unregister-Refines dead k q m s r = elim (find_cases (find k m)) [
  | inl e ↦
      let nil : s k ≡ [] = sym (r k) ∙ (unfold keep in rw e refl) in
      let rest : keep (lives dead) (queues k m) ≡ keep (others q) (s k) =
        unfold keep in rw (e, nil) refl in
      rw e (
        changes dead k (queues k m) (keep (others q) (s k)) m m s r (λ k'. queues_self k k' m) rest)
  | inr f ↦
      let v : List ℕ = f.0 in
      let vec : List ℕ = keep (λ x. lives dead x && not (lives dead q && x == q)) v in
      let old : s k ≡ keep (lives dead) v = sym (r k) ∙ (rw f.1 refl) in
      let rest : keep (lives dead) vec ≡ keep (others q) (s k) =
        keep-keep (lives dead) (λ x. lives dead x && not (lives dead q && x == q)) v
        ∙ keep_ext _ _ (left_over dead q) v
        ∙ sym (keep-keep (others q) (lives dead) v)
        ∙ ap (keep (others q)) (sym old) in
      rw f.1 (
        changes dead k vec (keep (others q) (s k)) m _ s r (λ k'. queues-put_or_erase k k' vec m)
          rest)
]

snapshot_lem :
    (dead : List ℕ) (k : ChannelKey) (m : RegistryMap) (s : Sets)
    → Refines dead m s
    → ((subscriber_snapshot dead k m).0 ≡ s k) × Refines dead (subscriber_snapshot dead k m).1 s
unfolding subscriber_snapshot Refines
snapshot_lem dead k m s r = elim (find_cases (find k m)) [
  | inl e ↦ rw e (sym (sym (r k) ∙ (unfold keep in rw e refl)), r)
  | inr f ↦
      let v : List ℕ = f.0 in
      let old : keep (lives dead) v ≡ s k = (rw f.1 refl) ∙ r k in
      elim (Bool-cases (need_cleanup dead v)) [
        | inl some_gone ↦
            let again : keep (lives dead) (keep (lives dead) v) ≡ s k =
              keep-keep (lives dead) (lives dead) v
              ∙ keep_ext _ _ (λ x. twice (lives dead x)) v
              ∙ old in
            rw (f.1, some_gone)
              (
                old,
                same_sets dead k _ s (
                    changes dead k (keep (lives dead) v) (s k) m _ s r
                      (λ k'. queues-put_or_erase k k' (keep (lives dead) v) m) again),
              )
        | inr all_live ↦ rw (f.1, all_live) (old, r)
      ]
]

destroy-Refines :
    (dead : List ℕ) (q : ℕ) (m : RegistryMap) (s : Sets)
    → Refines dead m s
    → Refines (q ∷ dead) m (λ k. keep (others q) (s k))
unfolding Refines elem
destroy-Refines dead q m s r k =
    keep_ext _ _ (λ x. point x) (queues k m)
    ∙ sym (keep-keep (others q) (lives dead) (queues k m))
    ∙ ap (keep (others q)) (r k)
  where
    point : (x : ℕ) → lives (q ∷ dead) x ≡ (lives dead x && others q x)
    point x = elim (Bool-cases (x == q)) [ inl e ↦ ground (arith, e) | inr ne ↦ ground (arith, ne) ]

answers_lem :
    (os : List Call) (dead : List ℕ) (m : RegistryMap) (s : Sets)
    → Refines dead m s
    → answers os dead m ≡ set_answers os dead s
unfolding answers set_answers
answers_lem [] dead m s r = refl
answers_lem (register k q ∷ os) dead m s r =
    answers_lem os dead (register_subscriber dead k q m) _ (register-Refines dead k q m s r)
answers_lem (unregister k q ∷ os) dead m s r =
    answers_lem os dead (unregister_subscriber dead k q m) _ (unregister-Refines dead k q m s r)
answers_lem (snapshot k ∷ os) dead m s r =
    let h = snapshot_lem dead k m s r in
    ap₂ (λ x xs. x ∷ xs) h.0 (answers_lem os dead (subscriber_snapshot dead k m).1 s h.1)
answers_lem (destroy q ∷ os) dead m s r =
    answers_lem os (q ∷ dead) m _ (destroy-Refines dead q m s r)

-- Any sequence of calls on an empty registry, with queues that are destroyed in between, gives the
-- snapshots of a map from channels to lists of live queues: a queue is added behind the others if it
-- lives and is not there, it is taken out when it is unregistered or destroyed, and no other channel
-- changes.
pub answers-set_answers :
    (os : List Call) (dead : List ℕ) → answers os dead [] ≡ set_answers os dead (λ k. [])
answers-set_answers os dead =
    answers_lem os dead [] (λ k. []) (unfold Refines find keep in λ k. refl)
