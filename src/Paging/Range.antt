-- ===== src/Paging/Range.antt =====
-- `map_pages`, and the number of pages of a size.
use owmice.Base.{
  ℕ, zero, suc, ◌+◌, ◌-◌, ◌*◌, ◌/◌, ◌%◌, ◌^◌, ◌<◌, ◌≤◌, ◌≡◌, arith, refl, ◌∙◌, Bool, Option, some,
  ◌==◌, ◌&&◌, leb, ltb, if◌then◌else◌, Outcome, done, died, and_then,
}
use owmice.Bits.{bit_and_page}
use owmice.Paging.{Paging, map_page, map_pages, size_to_pages}
use owmice.Paging.Walk.{translate, IsMapped}
use owmice.Paging.Map.{Mapped, NoFrame, map_page-Mapped}

-- The page of `v` is one of the `n` from that of `virt` on.
abbrev pub in_pages : ℕ → ℕ → ℕ → Bool
in_pages virt n v = leb (virt / 4096) (v / 4096) && ltb (v / 4096) (virt / 4096 + n)

-- Some of the pages are mapped, and for the next one there is no frame.
abbrev pub OutOfFrames : Paging → ℕ → ℕ → ℕ → ℕ → Type 0
OutOfFrames s n phys virt status =
    (k : ℕ) × (s' : Paging) × (k < n)
    × (map_pages k s phys virt ≡ done s')
    × NoFrame s'.frames status

-- What `map_pages` ends in.
abbrev pub MappedRange : Paging → ℕ → ℕ → ℕ → Outcome Paging → Type 0
MappedRange s n phys virt (died status) = OutOfFrames s n phys virt status
MappedRange s n phys virt (done s') =
    IsMapped s'
    × (s'.dir_current ≡ s.dir_current)
    × ((v : ℕ)
        → v < 2 ^ 32
        → translate s'.memory s'.dir_current v ≡ (
            if in_pages virt n v
            then some (phys + (v / 4096 - virt / 4096) * 4096 + v % 4096)
            else translate s.memory s.dir_current v))

-- The first page of a range, and the rest of it.
split_range :
    (first page n phys off : ℕ) (old : Option ℕ)
    → (if leb (first + 1) page && ltb page (first + 1 + n)
        then some (phys + 4096 + (page - (first + 1)) * 4096 + off)
        else if first == page
        then some (phys + off)
        else old)
      ≡ (if leb first page && ltb page (first + suc n)
          then some (phys + (page - first) * 4096 + off)
          else old)
split_range first page n phys off old = ground arith

-- The range behind the first page, where the sums of the source do not wrap, or which is empty.
rest_of_range :
    (n phys virt v : ℕ) (old : Option ℕ)
    → phys + suc n * 4096 ≤ 2 ^ 31
    → virt / 4096 + suc n ≤ 2 ^ 20
    → (if in_pages ((virt + 4096) % 2 ^ 32) n v
        then some
            ((phys + 4096) % 2 ^ 32 + (v / 4096 - (virt + 4096) % 2 ^ 32 / 4096) * 4096 + v % 4096)
        else old)
      ≡ (if leb (virt / 4096 + 1) (v / 4096) && ltb (v / 4096) (virt / 4096 + 1 + n)
          then some (phys + 4096 + (v / 4096 - (virt / 4096 + 1)) * 4096 + v % 4096)
          else old)
rest_of_range zero phys virt v old hp hv = ground arith
rest_of_range (suc n) phys virt v old hp hv =
    let page : (virt + 4096) % 2 ^ 32 / 4096 ≡ virt / 4096 + 1 = omega arith in
    let frame : (phys + 4096) % 2 ^ 32 ≡ phys + 4096 = omega arith in rw (page, frame) refl

-- One more page mapped before.
later :
    (n : ℕ) (s s' : Paging) (phys virt status : ℕ)
    → map_page s phys virt ≡ done s'
    → OutOfFrames s' n ((phys + 4096) % 2 ^ 32) ((virt + 4096) % 2 ^ 32) status
    → OutOfFrames s (suc n) phys virt status
unfolding map_pages
later n s s' phys virt status first (k, s'', below, mapped, none_left) =
    (suc k, s'', omega arith, rw first mapped, none_left)

widen :
    (n : ℕ) (s s' : Paging) (phys virt : ℕ)
    → map_page s phys virt ≡ done s'
    → phys + suc n * 4096 ≤ 2 ^ 31
    → virt / 4096 + suc n ≤ 2 ^ 20
    → s'.dir_current ≡ s.dir_current
    → ((v : ℕ)
        → v < 2 ^ 32
        → translate s'.memory s'.dir_current v ≡ (
            if virt / 4096 == v / 4096
            then some (phys + v % 4096)
            else translate s.memory s.dir_current v))
    → (o : Outcome Paging) → MappedRange s' n ((phys + 4096) % 2 ^ 32) ((virt + 4096) % 2 ^ 32) o
    → MappedRange s (suc n) phys virt o
widen n s s' phys virt first hp hv dir moved (died status) h = later n s s' phys virt status first h
widen n s s' phys virt first hp hv dir moved (done s'') (is, dir', leads) = (
  is,
  dir' ∙ dir,
  λ v small.
      leads v small
      ∙ rw (moved v small) (
          rest_of_range n phys virt v _ hp hv
          ∙ split_range (virt / 4096) (v / 4096) n phys (v % 4096)
              (translate s.memory s.dir_current v)),
)

after_first :
    (n : ℕ) (s : Paging) (phys virt : ℕ) (o : Outcome Paging)
    → map_page s phys virt ≡ o
    → phys % 4096 ≡ 0
    → phys + suc n * 4096 ≤ 2 ^ 31
    → virt / 4096 + suc n ≤ 2 ^ 20
    → Mapped s phys virt o
    → ((s' : Paging) (phys' virt' : ℕ)
        → phys' % 4096 ≡ 0
        → phys' + n * 4096 ≤ 2 ^ 31
        → virt' / 4096 + n ≤ 2 ^ 20
        → IsMapped s'
        → MappedRange s' n phys' virt' (map_pages n s' phys' virt'))
    → MappedRange s
        (suc n)
        phys
        virt
        (and_then o (λ s'. map_pages n s' ((phys + 4096) % 2 ^ 32) ((virt + 4096) % 2 ^ 32)))
unfolding map_pages
after_first n s phys virt (died status) first aligned hp hv none_left rest =
    (0, s, omega arith, refl, none_left)
after_first n s phys virt (done s') first aligned hp hv (is, dir, moved) rest =
    widen n s s' phys virt first hp hv dir moved
      (map_pages n s' ((phys + 4096) % 2 ^ 32) ((virt + 4096) % 2 ^ 32))
      (rest s' ((phys + 4096) % 2 ^ 32) ((virt + 4096) % 2 ^ 32) (omega arith) (omega arith)
        (omega arith) is)

-- For page-aligned frames below 2^31 and pages below 2^32, `map_pages` on a directory in order dies
-- only when, after some of the pages are mapped and before the last, the frame count is full, no
-- searched frame is free or the free frame is frame 0; otherwise it leaves the directory in order, the
-- pages lead to the frames one after the other, and every other address leads where it led before.
pub map_pages-MappedRange :
    (n : ℕ) (s : Paging) (phys virt : ℕ)
    → phys % 4096 ≡ 0
    → phys + n * 4096 ≤ 2 ^ 31
    → virt / 4096 + n ≤ 2 ^ 20
    → IsMapped s
    → MappedRange s n phys virt (map_pages n s phys virt)
unfolding map_pages
map_pages-MappedRange zero s phys virt aligned hp hv is = (is, refl, λ v h. ground arith)
map_pages-MappedRange (suc n) s phys virt aligned hp hv is =
    after_first n s phys virt (map_page s phys virt) refl aligned hp hv
      (map_page-Mapped s phys virt (omega arith) aligned (omega arith) is)
      (λ s' phys' virt' aligned' hp' hv' is'.
        map_pages-MappedRange n s' phys' virt' aligned' hp' hv' is')

-- The pages of a size are enough for it and at most one more than needed, below the last page.
pub size_to_pages_bounds :
    (sz : ℕ)
    → sz < 0xFFFFF000
    → (sz < size_to_pages sz * 4096) × (size_to_pages sz * 4096 ≤ sz + 4096)
unfolding size_to_pages
size_to_pages_bounds sz h = ground (arith, bit_and_page sz (omega arith))
