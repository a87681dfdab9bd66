-- ===== src/Registry.antt =====
-- The subscribers of the own process, src/dzIPC/common/local_pub_sub_registry.cc
-- (LocalPubSubRegistry): for each channel the queues that its messages go to. A weak_ptr is the number of its
-- queue, which no other queue gets; `dead` are the queues that are destroyed. Each member holds the
-- mutex; `subscriber_snapshot`, which gives it up once before it cleans up, is one step here.
pub mod Entries
pub mod Sets
mod Tests
use cpp_ipc_dds.Common.{
  ℕ, Bool, true, false, not, ◌&&◌, Option, none, some, List, [], ◌∷◌, ◌++◌, ◌==◌, if◌then◌else◌,
}
use cpp_ipc_dds.Generic.{same_name}

-- `ChannelKind`, as its value, and `ChannelKey`
pub record ChannelKey : Type 0 where
  pub topic_name : List ℕ
  pub domain_id : ℕ
  pub msg_id : ℕ
  pub kind : ℕ

-- `ChannelKey::operator==`
unfoldable pub same_key : ChannelKey → ChannelKey → Bool
unfolding same_name
same_key k k' =
    k.kind == k'.kind
    && (same_name k.topic_name k'.topic_name
        && (k.domain_id == k'.domain_id && k.msg_id == k'.msg_id))

-- `RegistryMap`
abbrev pub RegistryMap : Type 0
RegistryMap = List (ChannelKey × List ℕ)

-- `find`, an assignment to the element of a key, and `erase`.
unfoldable pub find : ChannelKey → RegistryMap → Option (List ℕ)
unfolding same_key
find k [] = none
find k ((k', v) ∷ m) = if same_key k k' then some v else find k m

unfoldable pub put : ChannelKey → List ℕ → RegistryMap → RegistryMap
unfolding same_key
put k v [] = (k, v) ∷ []
put k v ((k', w) ∷ m) =
    let rest = put k v m in if same_key k k' then (k', v) ∷ m else (k', w) ∷ rest

unfoldable pub erase : ChannelKey → RegistryMap → RegistryMap
unfolding same_key
erase k [] = []
erase k ((k', w) ∷ m) = let rest = erase k m in if same_key k k' then rest else (k', w) ∷ rest

-- A loop that erases the elements without `p`.
unfoldable pub keep : (ℕ → Bool) → List ℕ → List ℕ
keep p [] = []
keep p (x ∷ xs) = let rest = keep p xs in if p x then x ∷ rest else rest

unfoldable pub elem : ℕ → List ℕ → Bool
elem x [] = false
elem x (y ∷ ys) = if y == x then true else elem x ys

-- `lock` gives a queue.
abbrev pub lives : List ℕ → ℕ → Bool
lives dead x = not (elem x dead)

abbrev pub vec_of : Option (List ℕ) → List ℕ
vec_of none = []
vec_of (some v) = v

abbrev pub is_nil : List ℕ → Bool
is_nil [] = true
is_nil (x ∷ xs) = false

-- The loop that looks for the same queue, over the elements that `lock` gives.
unfoldable pub registered : List ℕ → ℕ → List ℕ → Bool
unfolding elem
registered dead q [] = false
registered dead q (x ∷ xs) = if lives dead x && x == q then true else registered dead q xs

-- `register_subscriber`; `registry_[key]` makes an empty element.
unfoldable pub register_subscriber : List ℕ → ChannelKey → ℕ → RegistryMap → RegistryMap
unfolding find put elem registered
register_subscriber dead key queue m =
    let vec = vec_of (find key m) in
    if not (lives dead queue)
    then put key vec m
    else if registered dead queue vec
    then put key vec m
    else put key (vec ++ queue ∷ []) m

-- `unregister_subscriber`; without its queue it only takes out what has expired.
unfoldable pub unregister_subscriber : List ℕ → ChannelKey → ℕ → RegistryMap → RegistryMap
unfolding find put erase elem keep
unregister_subscriber dead key queue m = without (find key m)
  where
    without : Option (List ℕ) → RegistryMap
    without none = m
    without (some v) =
        let vec = keep (λ x. lives dead x && not (lives dead queue && x == queue)) v in
        if is_nil vec then erase key m else put key vec m

-- `cleanup_expired`
abbrev pub cleanup_expired : List ℕ → List ℕ → List ℕ
cleanup_expired dead vec = keep (lives dead) vec

-- `need_cleanup`
unfoldable pub need_cleanup : List ℕ → List ℕ → Bool
unfolding elem
need_cleanup dead [] = false
need_cleanup dead (x ∷ xs) = if lives dead x then need_cleanup dead xs else true

-- `subscriber_snapshot`: the queues, and the map behind the cleaning.
unfoldable pub subscriber_snapshot : List ℕ → ChannelKey → RegistryMap → List ℕ × RegistryMap
unfolding find put erase elem keep need_cleanup
subscriber_snapshot dead key m = of_found (find key m)
  where
    of_found : Option (List ℕ) → List ℕ × RegistryMap
    of_found none = ([], m)
    of_found (some v) =
        let vec = cleanup_expired dead v in
        if need_cleanup dead v
        then (vec, if is_nil vec then erase key m else put key vec m)
        else (vec, m)

-- The calls, and the destruction of a queue.
pub data Call : Type 0 where
  register : ChannelKey → ℕ → Call
  unregister : ChannelKey → ℕ → Call
  snapshot : ChannelKey → Call
  destroy : ℕ → Call

-- The snapshots that a sequence of them gives.
unfoldable pub answers : List Call → List ℕ → RegistryMap → List (List ℕ)
unfolding register_subscriber unregister_subscriber subscriber_snapshot
answers [] dead m = []
answers (register k q ∷ os) dead m = answers os dead (register_subscriber dead k q m)
answers (unregister k q ∷ os) dead m = answers os dead (unregister_subscriber dead k q m)
answers (snapshot k ∷ os) dead m = let r = subscriber_snapshot dead k m in r.0 ∷ answers os dead r.1
answers (destroy q ∷ os) dead m = answers os (q ∷ dead) m
