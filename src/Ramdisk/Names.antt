-- ===== src/Ramdisk/Names.antt =====
-- Finding a node of the root directory by its name.
use owmice.Base.{
  ℕ, zero, suc, ◌+◌, ◌≡◌, refl, sym, ap, ◌∙◌, arith, true, some, List, [], ◌∷◌, get_elem?, ==-refl,
  Bool-cases, inl, inr,
}
use owmice.Ramdisk.{FileHeader, FsNode, same_name, find_node, file_node, file_nodes, fs_file}

pub same_name_refl : (name : List ℕ) → same_name name name ≡ true
unfolding same_name
same_name_refl [] = refl
same_name_refl (c ∷ name) = rw (==-refl c, same_name_refl name) refl

-- A name that a node has is found, at a node that has it.
pub find_node-found :
    (i k : ℕ) (ns : List FsNode) (n : FsNode)
    → get_elem? ns i ≡ some n
    → (j : ℕ) × (n' : FsNode) × (find_node n.name k ns ≡ some (k + j)) × (get_elem? ns j ≡ some n')
unfolding find_node
find_node-found i k [] n e = cc e
find_node-found zero k (m ∷ ns) n e =
    let same : m ≡ n = cc e in
    let named : same_name n.name m.name ≡ true =
      ap (λ (x : FsNode). same_name n.name x.name) same ∙ same_name_refl n.name in
    (0, m, rw named (ap some (omega arith)), refl)
find_node-found (suc i) k (m ∷ ns) n e = elim (Bool-cases (same_name n.name m.name)) [
  | inl same ↦ (0, m, rw same (ap some (omega arith)), refl)
  | inr other ↦
      let (j, n', found, there) = find_node-found i (k + 1) ns n e in
      (suc j, n', rw other (found ∙ ap some (omega arith)), there)
]

-- The nodes that `initrd_init` makes, one for each header.
pub get_elem?-file_nodes :
    (i k : ℕ) (hs : List FileHeader) (h : FileHeader)
    → get_elem? hs i ≡ some h
    → get_elem? (file_nodes k hs) i ≡ some (file_node h (k + i))
unfolding file_nodes
get_elem?-file_nodes i k [] h e = cc e
get_elem?-file_nodes zero k (x ∷ hs) h e =
    let same : x ≡ h = cc e in rw same (ap (λ (j : ℕ). some (file_node h j)) (omega arith))
get_elem?-file_nodes (suc i) k (x ∷ hs) h e =
    let next : k + 1 + i ≡ k + suc i = omega arith in
    rw next at (get_elem?-file_nodes i (k + 1) hs h e)

pub flags-file_nodes :
    (i k : ℕ) (hs : List FileHeader) (n : FsNode)
    → get_elem? (file_nodes k hs) i ≡ some n
    → n.flags ≡ fs_file
unfolding file_nodes file_node
flags-file_nodes i k [] n e = cc e
flags-file_nodes zero k (x ∷ hs) n e =
    let same : file_node x k ≡ n = cc e in sym (ap (λ (m : FsNode). m.flags) same)
flags-file_nodes (suc i) k (x ∷ hs) n e = flags-file_nodes i (k + 1) hs n e

-- What a name leads to is the node of a header.
pub find_node-header :
    (name : List ℕ) (k j r : ℕ) (hs : List FileHeader)
    → find_node name k (file_nodes j hs) ≡ some r
    → (i : ℕ) × (h : FileHeader) × (r ≡ k + i) × (get_elem? hs i ≡ some h)
unfolding find_node file_nodes file_node
find_node-header name k j r [] e = cc e
find_node-header name k j r (h ∷ hs) e = elim (Bool-cases (same_name name h.name)) [
  | inl same ↦ let here : k ≡ r = cc (rw same at e) in (0, h, omega (arith, here), refl)
  | inr other ↦
      let (i, x, place, there) = find_node-header name (k + 1) (j + 1) r hs (rw other at e) in
      (suc i, x, omega (arith, place), there)
]
