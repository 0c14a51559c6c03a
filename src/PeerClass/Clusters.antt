-- ===== src/PeerClass/Clusters.antt =====
-- What equalClusterIDSlices decides.
use ramen.Prelude.{
  String, true, List, [], ◌∷◌, contains, length, ◌≡◌, ◌↔◌, refl, arith, eq_iff, eq_refl, sym, ◌∙◌,
}
use ramen.PeerClass.{all_in, equal_cluster_id_slices}

-- Every string of the first list stands in the second.
abbrev pub Within : List String → List String → Type 0
Within a b = (v : String) → contains a v ≡ true → contains b v ≡ true

contains-all_in :
    (a b : List String) (v : String) → all_in a b ≡ true → contains a v ≡ true → contains b v ≡ true
contains-all_in [] b v h m = cc
contains-all_in (x ∷ xs) b v h m = ground (arith, contains-all_in xs b v, eq_iff x v)

Within-all_in : (a b : List String) → Within a b → all_in a b ≡ true
Within-all_in [] b h = refl
Within-all_in (x ∷ xs) b h =
    ground (arith, h x, eq_refl x, Within-all_in xs b (λ v m. h v (ground (arith, m))))

-- equalClusterIDSlices is true exactly when the two slices have the same length and each holds
-- every string of the other.
pub equal_cluster_id_slices_iff :
    (a b : List String)
    → (equal_cluster_id_slices a b ≡ true) ↔ ((length a ≡ length b) × Within a b × Within b a)
unfolding equal_cluster_id_slices
equal_cluster_id_slices_iff a b = (
  λ h. (
    ground arith,
    (λ v. contains-all_in a b v (ground arith)),
    (λ v. contains-all_in b a v (ground arith)),
  ),
  λ (l, ab, ba). ground (arith, Within-all_in a b ab, Within-all_in b a ba),
)

pub equal_cluster_id_slices_refl : (a : List String) → equal_cluster_id_slices a a ≡ true
equal_cluster_id_slices_refl a = (equal_cluster_id_slices_iff a a).1 (refl, (λ v m. m), (λ v m. m))

pub equal_cluster_id_slices_trans :
    (a b c : List String)
    → equal_cluster_id_slices a b ≡ true
    → equal_cluster_id_slices b c ≡ true
    → equal_cluster_id_slices a c ≡ true
equal_cluster_id_slices_trans a b c h k =
    let (l, ab, ba) = (equal_cluster_id_slices_iff a b).0 h in
    let (m, bc, cb) = (equal_cluster_id_slices_iff b c).0 k in
    (equal_cluster_id_slices_iff a c).1 (l ∙ m, (λ v i. bc v (ab v i)), (λ v i. ba v (cb v i)))

pub equal_cluster_id_slices_sym :
    (a b : List String) → equal_cluster_id_slices a b ≡ true → equal_cluster_id_slices b a ≡ true
equal_cluster_id_slices_sym a b h =
    let (l, ab, ba) = (equal_cluster_id_slices_iff a b).0 h in
    (equal_cluster_id_slices_iff b a).1 (sym l, ba, ab)
