-- ===== src/Registry/Entries.antt =====
-- The laws of the map and of the loops over its elements.
use cpp_ipc_dds.Common.{
  ℕ, ◌≡◌, refl, sym, ◌∙◌, subst, inl, inr, Bool, true, false, ◌&&◌, Option, none, some, List, [],
  ◌∷◌, ◌++◌, arith, if◌then◌else◌, Bool-cases,
}
use cpp_ipc_dds.Generic.Fields.{same_name_refl, same_name→eq}
use cpp_ipc_dds.Registry.{
  ChannelKey, same_key, RegistryMap, find, put, erase, keep, elem, lives, vec_of, is_nil,
  registered, need_cleanup,
}

pub same_key_refl : (k : ChannelKey) → same_key k k ≡ true
unfolding same_key
same_key_refl k = ground (arith, same_name_refl k.topic_name)

pub same_key→eq : (k k' : ChannelKey) → same_key k k' ≡ true → k ≡ k'
unfolding same_key
same_key→eq k k' h =
    let kinds : k.kind ≡ k'.kind = ground (arith, h) in
    let domains : k.domain_id ≡ k'.domain_id = ground (arith, h) in
    let ids : k.msg_id ≡ k'.msg_id = ground (arith, h) in
    let names : k.topic_name ≡ k'.topic_name =
      same_name→eq k.topic_name k'.topic_name (ground (arith, h)) in
    λ i. record { topic_name = names i; domain_id = domains i; msg_id = ids i; kind = kinds i }

pub same_key_sym : (k k' : ChannelKey) → same_key k k' ≡ false → same_key k' k ≡ false
same_key_sym k k' h = elim (Bool-cases (same_key k' k)) [
  | inl e ↦
      absurd (
        ground
          (arith, h, subst (λ x. same_key x k' ≡ true) (same_key→eq k' k e) (same_key_refl k')))
  | inr e ↦ e
]

if_twice {ℓ} :
    {A : Type ℓ} (t : Bool) (a b c : A)
    → (if t then a else c) ≡ (if t then a else (if t then b else c))
if_twice true a b c = refl
if_twice false a b c = refl

-- The queues that the map has for a key.
abbrev pub queues : ChannelKey → RegistryMap → List ℕ
queues k m = vec_of (find k m)

pub find-put :
    (k k' : ChannelKey) (v : List ℕ) (m : RegistryMap)
    → find k' (put k v m) ≡ (if same_key k' k then some v else find k' m)
unfolding find put
find-put k k' v [] = refl
find-put k k' v ((k1, w) ∷ m) = elim (Bool-cases (same_key k k1)) [
  | inl e ↦
      let same : k ≡ k1 = same_key→eq k k1 e in
      rw e (
        subst (λ x. find k' ((x, v) ∷ m) ≡ (if same_key k' k then some v else find k' ((x, w) ∷ m)))
          same (if_twice (same_key k' k) (some v) (some w) (find k' m)))
  | inr ne ↦ rw ne (elim (Bool-cases (same_key k' k1)) [
    | inl e' ↦
        let apart : same_key k' k ≡ false =
          subst (λ x. same_key x k ≡ false) (sym (same_key→eq k' k1 e')) (same_key_sym k k1 ne) in
        rw (e', apart) refl
    | inr ne' ↦ rw (ne', find-put k k' v m) refl
  ])
]

pub find-erase :
    (k k' : ChannelKey) (m : RegistryMap)
    → find k' (erase k m) ≡ (if same_key k' k then none else find k' m)
unfolding find erase
find-erase k k' [] = if_same (same_key k' k)
  where
    if_same : (t : Bool) → ◌≡◌ {A = Option (List ℕ)} none (if t then none else none)
    if_same true = refl
    if_same false = refl
find-erase k k' ((k1, w) ∷ m) = elim (Bool-cases (same_key k k1)) [
  | inl e ↦
      let same : k ≡ k1 = same_key→eq k k1 e in
      rw e (
        subst
          (λ x.
            find k' (erase k m)
            ≡ (if same_key k' k then none else (if same_key k' x then some w else find k' m)))
          same (find-erase k k' m ∙ if_twice (same_key k' k) none (some w) (find k' m)))
  | inr ne ↦ rw ne (elim (Bool-cases (same_key k' k1)) [
    | inl e' ↦
        let apart : same_key k' k ≡ false =
          subst (λ x. same_key x k ≡ false) (sym (same_key→eq k' k1 e')) (same_key_sym k k1 ne) in
        rw (e', apart) refl
    | inr ne' ↦ rw (ne', find-erase k k' m) refl
  ])
]

pub queues-put :
    (k k' : ChannelKey) (v : List ℕ) (m : RegistryMap)
    → queues k' (put k v m) ≡ (if same_key k' k then v else queues k' m)
queues-put k k' v m = elim (Bool-cases (same_key k' k)) [
  | inl e ↦ rw (find-put k k' v m, e) refl
  | inr ne ↦ rw (find-put k k' v m, ne) refl
]

pub queues-erase :
    (k k' : ChannelKey) (m : RegistryMap)
    → queues k' (erase k m) ≡ (if same_key k' k then [] else queues k' m)
queues-erase k k' m = elim (Bool-cases (same_key k' k)) [
  | inl e ↦ rw (find-erase k k' m, e) refl
  | inr ne ↦ rw (find-erase k k' m, ne) refl
]

-- An element that is stored, or erased when nothing is left of it.
pub queues-put_or_erase :
    (k k' : ChannelKey) (v : List ℕ) (m : RegistryMap)
    → queues k' (if is_nil v then erase k m else put k v m)
      ≡ (if same_key k' k then v else queues k' m)
queues-put_or_erase k k' [] m = queues-erase k k' m
queues-put_or_erase k k' (x ∷ v) m = queues-put k k' (x ∷ v) m

pub keep-keep : (p r : ℕ → Bool) (v : List ℕ) → keep p (keep r v) ≡ keep (λ x. r x && p x) v
unfolding keep
keep-keep p r [] = refl
keep-keep p r (x ∷ v) = elim (Bool-cases (r x)) [
  | inl e ↦ rw (e, keep-keep p r v) refl
  | inr e ↦ rw (e, keep-keep p r v) refl
]

pub keep-append : (p : ℕ → Bool) (v w : List ℕ) → keep p (v ++ w) ≡ keep p v ++ keep p w
unfolding keep
keep-append p [] w = refl
keep-append p (x ∷ v) w = elim (Bool-cases (p x)) [
  | inl e ↦ rw (e, keep-append p v w) refl
  | inr e ↦ rw (e, keep-append p v w) refl
]

pub keep_ext : (p r : ℕ → Bool) → ((x : ℕ) → p x ≡ r x) → (v : List ℕ) → keep p v ≡ keep r v
keep_ext p r h v = λ i. keep (λ x. h x i) v

pub need_cleanup_lem : (dead v : List ℕ) → need_cleanup dead v ≡ false → keep (lives dead) v ≡ v
unfolding need_cleanup keep
need_cleanup_lem dead [] h = refl
need_cleanup_lem dead (x ∷ v) h = elim (Bool-cases (lives dead x)) [
  | inl e ↦ rw (e, need_cleanup_lem dead v (rw e at h)) refl
  | inr e ↦ absurd (ground (arith, rw e at h))
]

pub registered_lem :
    (dead : List ℕ) (q : ℕ) (v : List ℕ) → registered dead q v ≡ elem q (keep (lives dead) v)
unfolding registered keep elem
registered_lem dead q [] = refl
registered_lem dead q (x ∷ v) = elim (Bool-cases (lives dead x)) [
  | inl e ↦ rw (e, registered_lem dead q v) refl
  | inr e ↦ rw (e, registered_lem dead q v) refl
]
