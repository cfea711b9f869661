-- ===== src/Kernel/Regions.antt =====
-- What the regions of the memory map give the heap, one after the other.
use owmice.Base.{
  ℕ, ◌+◌, ◌-◌, ◌%◌, ◌^◌, ◌≡◌, refl, ◌∙◌, true, Option, none, some, List, [], ◌∷◌, ◌++◌, Bool-cases,
  Option-cases, inl, inr, if◌then◌else◌,
}
use owmice.Kernel.{
  Kernel, MemRange, MmapEntry, is_available, heap_range, add_region, add_regions, offset,
}
use owmice.Heap as H

-- The range of the first available region.
unfoldable pub first_range : ℕ → List MmapEntry → Option MemRange
first_range size_pa [] = none
first_range size_pa (e ∷ es) =
    if is_available e then some (heap_range size_pa e) else first_range size_pa es

-- What was there before, or else the other.
abbrev pub or_else : Option MemRange → Option MemRange → Option MemRange
or_else (some r) other = some r
or_else none other = other

module _ (size_pa : ℕ) where
  kernel_mem-add_region :
      (k : Kernel) (e : MmapEntry)
      → (add_region size_pa k e).kernel_mem
        ≡ or_else k.kernel_mem (if is_available e then some (heap_range size_pa e) else none)
  unfolding add_region
  kernel_mem-add_region k e = elim (Bool-cases (is_available e)) [
    | inl there ↦
        rw there (elim (Option-cases k.kernel_mem) [
          | inl fresh ↦ rw fresh refl
          | inr (r, old) ↦ rw old old
        ])
    | inr not_there ↦ rw not_there (elim (Option-cases k.kernel_mem) [
      | inl fresh ↦ rw fresh refl
      | inr (r, old) ↦ rw old refl
    ])
  ]

  pub kernel_mem-add_regions :
      (es : List MmapEntry) (k : Kernel)
      → (add_regions size_pa es k).kernel_mem ≡ or_else k.kernel_mem (first_range size_pa es)
  unfolding add_regions first_range
  kernel_mem-add_regions [] k = elim (Option-cases k.kernel_mem) [
    | inl fresh ↦ rw fresh refl
    | inr (r, old) ↦ rw old refl
  ]
  kernel_mem-add_regions (e ∷ es) k =
      kernel_mem-add_regions es (add_region size_pa k e)
      ∙ rw (kernel_mem-add_region k e) (elim (Option-cases k.kernel_mem) [
        | inr (r, old) ↦ rw old refl
        | inl fresh ↦ rw fresh (elim (Bool-cases (is_available e)) [
          | inl there ↦ rw there refl
          | inr not_there ↦ rw not_there refl
        ])
      ])

-- The heap after a region that is the first one to be given to it.
abbrev pub given : H.State → MemRange → H.State
given h r =
    H.add_block (record h { heap = H.init h.heap }) r.start ((r.end + 2 ^ 32 - r.start) % 2 ^ 32)

-- The heap after the regions, by what was there before and the range of the first of them.
abbrev pub heap_after : Option MemRange → Option MemRange → H.State → H.State
heap_after (some r) other h = h
heap_after none none h = h
heap_after none (some r) h = given h r

module _ (size_pa : ℕ) where
  heap-add_region :
      (k : Kernel) (e : MmapEntry)
      → (add_region size_pa k e).heap
        ≡ heap_after k.kernel_mem
            (if is_available e then some (heap_range size_pa e) else none)
            k.heap
  unfolding add_region offset
  heap-add_region k e = elim (Bool-cases (is_available e)) [
    | inl there ↦ rw there (elim (Option-cases k.kernel_mem) [
      | inl fresh ↦ rw fresh refl
      | inr (r, old) ↦ rw old refl
    ])
    | inr not_there ↦ rw not_there (elim (Option-cases k.kernel_mem) [
      | inl fresh ↦ rw fresh refl
      | inr (r, old) ↦ rw old refl
    ])
  ]

  pub heap-add_regions :
      (es : List MmapEntry) (k : Kernel)
      → (add_regions size_pa es k).heap ≡ heap_after k.kernel_mem (first_range size_pa es) k.heap
  unfolding add_regions first_range
  heap-add_regions [] k = elim (Option-cases k.kernel_mem) [
    | inl fresh ↦ rw fresh refl
    | inr (r, old) ↦ rw old refl
  ]
  heap-add_regions (e ∷ es) k =
      heap-add_regions es (add_region size_pa k e)
      ∙ rw (kernel_mem-add_region size_pa k e, heap-add_region k e)
          (elim (Option-cases k.kernel_mem) [
            | inr (r, old) ↦ rw old refl
            | inl fresh ↦ rw fresh (elim (Bool-cases (is_available e)) [
              | inl there ↦ rw there refl
              | inr not_there ↦ rw not_there refl
            ])
          ])

pub first_range-append :
    (size_pa : ℕ) (before after : List MmapEntry) (e : MmapEntry)
    → first_range size_pa before ≡ none
    → is_available e ≡ true
    → first_range size_pa (before ++ e ∷ after) ≡ some (heap_range size_pa e)
unfolding first_range
first_range-append size_pa [] after e no_region available = rw available refl
first_range-append size_pa (b ∷ before) after e no_region available =
    elim (Bool-cases (is_available b)) [
      | inl there ↦ cc (rw there at no_region)
      | inr not_there ↦
          rw not_there
            (first_range-append size_pa before after e (rw not_there at no_region) available)
    ]
