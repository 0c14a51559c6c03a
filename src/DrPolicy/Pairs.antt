-- ===== src/DrPolicy/Pairs.antt =====
-- What the search for peers finds: internal/controller/drpolicy_peerclass.go.
use ramen.Prelude.{
  String, Bool, true, false, not, Option, none, some, List, [], ◌∷◌, ◌≡◌, ◌≢◌, refl, ◌⊎◌, inl, inr,
  ◌==◌, if◌then◌else◌, arith, eq_iff, All, All-append, contains, of_false_is_true,
}
use ramen.DrPolicy.{
  Storage, ClassLists, PeerInfo, has_label, storage_id_label, storage_offloaded_label,
  is_async_vgs_class_peer, is_async_vs_class_peer,
}
use ramen.DrPolicy.Search.{
  storage_id_of, is_sync_on, get_sync_peers, offloaded_pair, plain_pair, pair_of, same, or_else,
  async_on, cons_if, get_async_peers, class_named, find_peers_of, find_peers, both,
  peers_of_classes, peers_from, find_all_peers, union_storage_classes,
}

-- A synchronous pair: one storage ID, and no replication of its own.
abbrev pub IsSync : PeerInfo → Type 0
IsSync p =
    (s : String) × (p.storage_ids ≡ s ∷ [])
    × (p.replication_id ≡ "")
    × (p.group_replication_id ≡ "")

-- An asynchronous pair: two storage IDs that differ, and group replication if it is offloaded, or
-- else volume replication wherever there is group replication.
abbrev pub IsAsync : PeerInfo → Type 0
IsAsync p =
    (s : String) × (t : String) × (p.storage_ids ≡ s ∷ t ∷ [])
    × (s ≢ t)
    × ((p.offloaded ≡ true) × (p.group_replication_id ≢ "")
        ⊎ (p.offloaded ≡ false) × ((p.replication_id ≢ "") ⊎ (p.group_replication_id ≡ "")))

abbrev Holds : Option PeerInfo → Type 0
Holds none = Unit {0}
Holds (some p) = IsAsync p

if-Holds :
    (b : Bool) (x y : Option PeerInfo)
    → (b ≡ true → Holds x)
    → (b ≡ false → Holds y)
    → Holds (if b then x else y)
if-Holds true x y h k = h refl
if-Holds false x y h k = k refl

different : (s t : String) → (s == t) ≡ false → s ≢ t
different s t h e = of_false_is_true (ground (arith, eq_iff s t))

module _ (first cl : ClassLists) (sc_name s t : String) (d : s ≢ t) where
  offloaded_pair-Holds : (gr_id : String) → Holds (offloaded_pair first cl sc_name s t gr_id)
  unfolding offloaded_pair
  offloaded_pair-Holds gr_id =
      if-Holds (gr_id == "") _ _ (λ _. tt) (λ h. (s, t, refl, d, inl (refl, different gr_id "" h)))

  plain_pair-Holds : (r_id gr_id : String) → Holds (plain_pair first cl sc_name s t r_id gr_id)
  unfolding plain_pair
  plain_pair-Holds r_id gr_id =
      if-Holds (not (r_id == "")) _ _
        (λ h. (s, t, refl, d, inr (refl, inl (different r_id "" (ground arith)))))
        (λ _.
          if-Holds (is_async_vgs_class_peer sc_name first cl s t) _ _
            (λ _. (s, t, refl, d, inr (refl, inr refl)))
            (λ _.
              if-Holds (not (is_async_vs_class_peer sc_name first cl s t)) _ _ (λ _. tt)
                (λ _. (s, t, refl, d, inr (refl, inr refl)))))

  pair_of-Holds :
      (offloaded : Bool) (schedule : String)
      → Holds (pair_of offloaded first cl sc_name s t schedule)
  unfolding pair_of
  pair_of-Holds true schedule = offloaded_pair-Holds _
  pair_of-Holds false schedule = plain_pair-Holds _ _

or_else-Holds : (o r : Option PeerInfo) → Holds o → Holds r → Holds (or_else o r)
or_else-Holds none r h k = k
or_else-Holds (some p) r h k = h

async_on-Holds :
    (offloaded : Bool) (first cl : ClassLists) (sc_name s schedule : String) (scs : List Storage)
    → Holds (async_on offloaded first cl sc_name s schedule scs)
unfolding async_on
async_on-Holds offloaded first cl sc_name s schedule [] = tt
async_on-Holds offloaded first cl sc_name s schedule (sc ∷ scs) =
    let rest = async_on-Holds offloaded first cl sc_name s schedule scs in
    if-Holds (not (sc.name == sc_name)) _ _ (λ _. rest)
      (λ _.
        if-Holds (s == storage_id_of sc) _ _ (λ _. tt)
          (λ h.
            if-Holds (not (same offloaded (has_label sc.labels storage_offloaded_label))) _ _
              (λ _. rest)
              (λ _.
                or_else-Holds _ _
                  (pair_of-Holds first cl sc_name s (storage_id_of sc)
                    (different s (storage_id_of sc) h) offloaded schedule)
                  rest)))

cons_if-All :
    (o : Option PeerInfo) (ps : List PeerInfo)
    → Holds o
    → All IsAsync ps
    → All IsAsync (cons_if o ps)
cons_if-All none ps h k = k
cons_if-All (some p) ps h k = (h, k)

get_async_peers-All :
    (offloaded : Bool) (first : ClassLists) (sc_name s schedule : String) (cls : List ClassLists)
    → All IsAsync (get_async_peers offloaded first sc_name s schedule cls)
unfolding get_async_peers
get_async_peers-All offloaded first sc_name s schedule [] = tt
get_async_peers-All offloaded first sc_name s schedule (cl ∷ cls) =
    cons_if-All _ _ (async_on-Holds offloaded first cl sc_name s schedule cl.s_classes)
      (get_async_peers-All offloaded first sc_name s schedule cls)

if-All :
    (P : PeerInfo → Type 0) (b : Bool) (x y : List PeerInfo)
    → All P x
    → All P y
    → All P (if b then x else y)
if-All P true x y h k = h
if-All P false x y h k = k

get_sync_peers-All :
    (sc_name cluster_id s : String) (cls : List ClassLists)
    → All IsSync (get_sync_peers sc_name cluster_id s cls)
unfolding get_sync_peers
get_sync_peers-All sc_name cluster_id s [] = tt
get_sync_peers-All sc_name cluster_id s (cl ∷ cls) =
    let rest = get_sync_peers-All sc_name cluster_id s cls in
    if-All IsSync (is_sync_on sc_name s cl.s_classes) _ _ ((s, refl, refl, refl), rest) rest

-- What a search answers: the synchronous and the asynchronous pairs.
abbrev pub Pairs : List PeerInfo × List PeerInfo → Type 0
Pairs (s, a) = All IsSync s × All IsAsync a

both-Pairs : (x y : List PeerInfo × List PeerInfo) → Pairs x → Pairs y → Pairs (both x y)
both-Pairs (s, a) (t, b) (hs, ha) (ht, hb) =
    (All-append IsSync s t hs ht, All-append IsAsync a b ha hb)

if-Pairs :
    (b : Bool) (x y : List PeerInfo × List PeerInfo)
    → Pairs x
    → Pairs y
    → Pairs (if b then x else y)
if-Pairs true x y h k = h
if-Pairs false x y h k = k

find_peers_of-Pairs :
    (first : ClassLists) (others : List ClassLists) (sc_name schedule : String) (o : Option Storage)
    → Pairs (find_peers_of first others sc_name schedule o)
unfolding find_peers_of
find_peers_of-Pairs first others sc_name schedule none = (tt, tt)
find_peers_of-Pairs first others sc_name schedule (some sc) =
    if-Pairs (not (has_label sc.labels storage_id_label)) _ _ (tt, tt)
      (
        get_sync_peers-All sc_name first.cluster_id (storage_id_of sc) others,
        if-All IsAsync (not (schedule == "")) _ _
            (get_async_peers-All (has_label sc.labels storage_offloaded_label) first sc_name
              (storage_id_of sc) schedule others)
            tt,
      )

peers_of_classes-Pairs :
    (names : List String) (first : ClassLists) (others : List ClassLists) (schedule : String)
    (scs : List Storage)
    → Pairs (peers_of_classes names first others schedule scs)
unfolding peers_of_classes find_peers
peers_of_classes-Pairs names first others schedule [] = (tt, tt)
peers_of_classes-Pairs names first others schedule (sc ∷ scs) =
    let rest = peers_of_classes-Pairs names first others schedule scs in
    if-Pairs (not (contains names sc.name)) _ _ rest (
      both-Pairs (find_peers first others sc.name schedule)
        (peers_of_classes names first others schedule scs)
        (find_peers_of-Pairs first others sc.name schedule (class_named sc.name first.s_classes))
        rest)

peers_from-Pairs :
    (names : List String) (schedule : String) (cls : List ClassLists)
    → Pairs (peers_from names schedule cls)
unfolding peers_from
peers_from-Pairs names schedule [] = (tt, tt)
peers_from-Pairs names schedule (first ∷ []) = (tt, tt)
peers_from-Pairs names schedule (first ∷ cl ∷ cls) =
    both-Pairs (peers_of_classes names first (cl ∷ cls) schedule first.s_classes)
      (peers_from names schedule (cl ∷ cls))
      (peers_of_classes-Pairs names first (cl ∷ cls) schedule first.s_classes)
      (peers_from-Pairs names schedule (cl ∷ cls))

-- Of the pairs of peers that findAllPeers finds, the synchronous ones have one storage ID and no
-- replication IDs, and the asynchronous ones have two storage IDs that differ, a group replication
-- ID if they are offloaded, and a replication ID beside a group replication ID if they are not.
pub find_all_peers-Pairs :
    (cls : List ClassLists) (schedule : String) → Pairs (find_all_peers cls schedule)
unfolding find_all_peers
find_all_peers-Pairs cls schedule = peers_from-Pairs (union_storage_classes [] cls) schedule cls
