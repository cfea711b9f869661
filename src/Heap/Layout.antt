-- ===== src/Heap/Layout.antt =====
-- A block of the heap as a list of chunks, and what a change of memory leaves of it.
use owmice.Base.{ℕ, ◌+◌, ◌^◌, ◌<◌, ◌≤◌, ◌≡◌, Bool, List, [], ◌∷◌, ◌++◌, arith, ◌∙◌, if◌then◌else◌}
use owmice.Memory.{Memory, load32}
use owmice.Heap.{header_size, flagsize_at}

pub record Chunk : Type 0 where
  pub sz : ℕ
  pub used : Bool

abbrev pub chunk : ℕ → Bool → Chunk
chunk n b = record { sz = n; used = b }

-- The `flagsize` of a chunk: bit 31 is set when it is in use.
abbrev pub flagsize : Chunk → ℕ
flagsize c = if c.used then 2 ^ 31 + c.sz else c.sz

-- From the header at `a` to the address `stop` the memory is tiled by the chunks `cs`, each a header
-- with the chunk's size and flag, and as many bytes as the size says.
abbrev pub Chunks : Memory → ℕ → List Chunk → ℕ → Type 0
Chunks m a [] stop = a ≡ stop
Chunks m a (c ∷ cs) stop =
    (c.sz < 2 ^ 31)
    × (load32 m (flagsize_at a) ≡ flagsize c)
    × Chunks m (a + header_size + c.sz) cs stop

-- The bytes that the chunks take, headers included.
abbrev pub extent : List Chunk → ℕ
extent [] = 0
extent (c ∷ cs) = header_size + c.sz + extent cs

pub Chunks-extent :
    (m : Memory) (a : ℕ) (cs : List Chunk) (stop : ℕ) → Chunks m a cs stop → a + extent cs ≡ stop
Chunks-extent m a [] stop h = omega arith
Chunks-extent m a (c ∷ cs) stop h =
    omega (arith, Chunks-extent m (a + header_size + c.sz) cs stop h.2)

-- The two memories hold the same words in every header from `lo` on up to `hi`.
abbrev pub SameHeaders : ℕ → ℕ → Memory → Memory → Type 0
SameHeaders lo hi m m' =
    (a : ℕ) → lo ≤ a → a + header_size ≤ hi → load32 m' (flagsize_at a) ≡ load32 m (flagsize_at a)

pub Chunks-frame :
    (m m' : Memory) (a : ℕ) (cs : List Chunk) (stop : ℕ)
    → SameHeaders a stop m m'
    → Chunks m a cs stop
    → Chunks m' a cs stop
Chunks-frame m m' a [] stop same h = h
Chunks-frame m m' a (c ∷ cs) stop same h =
    let e = Chunks-extent m (a + header_size + c.sz) cs stop h.2 in
    (
      h.0,
      same a (omega arith) (omega arith) ∙ h.1,
      Chunks-frame m m' (a + header_size + c.sz) cs stop (λ b p q. same b (omega arith) q) h.2,
    )

pub Chunks-append :
    (m : Memory) (a : ℕ) (cs : List Chunk) (mid : ℕ) (ds : List Chunk) (stop : ℕ)
    → Chunks m a cs mid
    → Chunks m mid ds stop
    → Chunks m a (cs ++ ds) stop
Chunks-append m a [] mid ds stop h k = rw h k
Chunks-append m a (c ∷ cs) mid ds stop h k =
    (h.0, h.1, Chunks-append m (a + header_size + c.sz) cs mid ds stop h.2 k)
