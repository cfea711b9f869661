-- ===== src/Packer/Decode.antt =====
-- What `initrd_init` reads of the headers that the packer wrote.
use owmice.Base.{
  ℕ, ◌+◌, ◌-◌, ◌*◌, ◌≤◌, ◌≡◌, inl, inr, refl, ◌∙◌, arith, some, List, [], ◌∷◌, length,
}
use owmice.Memory.{Memory, load32, store32}
use owmice.Memory.Block.{Holds, Holds-frame, SameOutside}
use owmice.Memory.Word.{load8-store32_ne, load32-store32_ne}
use owmice.Ramdisk.{FileHeader, u32}
use owmice.Ramdisk.Load.{load_headers}
use owmice.Packer.{header_bytes, table_bytes}
use owmice.Packer.Encode.{
  Holds-append, AllEncodable, header_loaded, string_at-Holds, length-header_bytes,
}

-- The loop of `initrd_init` reads the headers, and changes nothing outside them.
pub load_headers-table_bytes :
    (fuel : ℕ) (stack : ℕ → ℕ) (location k n p : ℕ) (m : Memory) (hs : List FileHeader)
    → 64 ≤ fuel
    → AllEncodable hs
    → length hs ≤ n
    → Holds m p (table_bytes stack k n hs)
    → (m' : Memory) × (load_headers fuel (length hs) location p m ≡ some (hs, m'))
      × SameOutside p (p + 76 * length hs) m m'
unfolding load_headers table_bytes
load_headers-table_bytes fuel stack location k n p m [] enough all room h = (m, refl, λ a out. refl)
load_headers-table_bytes fuel stack location k n p m (h ∷ hs) enough (one, all) room held =
    let short = one.short in
    let moved = u32 (load32 m (p + 68) + location) in
    let m1 = store32 m (p + 68) moved in
    let (here, behind) =
      Holds-append m p (header_bytes stack k h) (table_bytes stack (k + 76) (n - 1) hs) held in
    let next : p + length (header_bytes stack k h) ≡ p + 76 =
      omega (arith, length-header_bytes stack k h short) in
    let behind1 =
      Holds-frame m m1 (p + 76) (table_bytes stack (k + 76) (n - 1) hs)
        (λ a lo hi. load8-store32_ne m (p + 68) moved a (inl (omega arith))) (rw next at behind) in
    let (magic, name, end, offset, size) = header_loaded stack m p k h one here in
    let magic1 = load8-store32_ne m (p + 68) moved p (inr (omega arith)) ∙ magic in
    let name1 =
      Holds-frame m m1 (p + 1) h.name
        (λ a lo hi. load8-store32_ne m (p + 68) moved a (inr (omega arith))) name in
    let end1 =
      load8-store32_ne m (p + 68) moved (p + 1 + length h.name) (inr (omega arith)) ∙ end in
    let size1 = load32-store32_ne m (p + 68) moved (p + 72) (inl (omega arith)) ∙ size in
    let named = string_at-Holds fuel m1 (p + 1) h.name one.full (omega arith) name1 end1 in
    let (m', rest, out) =
      load_headers-table_bytes fuel stack location (k + 76) (n - 1) (p + 76) m1 hs enough all
        (omega arith) behind1 in
    (
      m',
      rw (named, rest, magic1, size1) (rw offset refl),
      λ a away. out a (omega arith) ∙ load8-store32_ne m (p + 68) moved a (omega arith),
    )
