-- ===== src/Tasks/Path.antt =====
-- The tasks along `next`, and the ring as it is seen from one of its tasks.
use mathlib.Core.List.{append-nil}
use mathlib.Core.Path.{subst}
use owmice.Base.{ℕ, ◌≡◌, sym, ◌∙◌, List, [], ◌∷◌, ◌++◌}
use owmice.Tasks.Ring.{Linked, Distinct, NotIn, off_before, off_after, off_append}

-- From `p` on, `next` leads along the tasks.
abbrev pub Leads : (ℕ → ℕ) → ℕ → List ℕ → Type 0
Leads n p [] = Unit
Leads n p (q ∷ qs) = (n p ≡ q) × Leads n q qs

pub Leads-same :
    (n n' : ℕ → ℕ) (p : ℕ) (qs : List ℕ) → ((r : ℕ) → n' r ≡ n r) → Leads n p qs → Leads n' p qs
Leads-same n n' p [] same h = tt
Leads-same n n' p (q ∷ qs) same h = (same p ∙ h.0, Leads-same n n' q qs same h.1)

-- The ring behind one of its tasks.
module _ (n b : ℕ → ℕ) (end c : ℕ) where
  Leads-through :
      (ys zs : List ℕ) → Linked n b c ys end → Leads n end zs → Leads n c (ys ++ end ∷ zs)
  Leads-through ys zs h k = through c ys h
    where
      through : (p : ℕ) (ys : List ℕ) → Linked n b p ys end → Leads n p (ys ++ end ∷ zs)
      through p [] h = (h, k)
      through p (y ∷ ys) h = (h.0, through y ys h.2)

  linked_tail : (p : ℕ) (xs ys : List ℕ) → Linked n b p (xs ++ c ∷ ys) end → Linked n b c ys end
  linked_tail p [] ys h = h.2
  linked_tail p (x ∷ xs) ys h = linked_tail x xs ys h.2

  Leads-first : (p : ℕ) (xs ys : List ℕ) → Linked n b p (xs ++ c ∷ ys) end → Leads n p xs
  Leads-first p [] ys h = tt
  Leads-first p (x ∷ xs) ys h = (h.0, Leads-first x xs ys h.2)

Leads-whole : (n b : ℕ → ℕ) (p : ℕ) (qs : List ℕ) (end : ℕ) → Linked n b p qs end → Leads n p qs
Leads-whole n b p [] end h = tt
Leads-whole n b p (q ∷ qs) end h = (h.0, Leads-whole n b q qs end h.2)

pub Leads-behind :
    (n b : ℕ → ℕ) (m c : ℕ) (ts xs ys : List ℕ)
    → m ∷ ts ≡ xs ++ c ∷ ys
    → Linked n b m ts m
    → Leads n c (ys ++ xs)
Leads-behind n b m c ts [] ys e h =
    let first : m ≡ c = cc e in
    let rest : ts ≡ ys = cc e in
    rw (append-nil ys)
      (subst (λ l. Leads n c l) rest (subst (λ p. Leads n p ts) first (Leads-whole n b m ts m h)))
Leads-behind n b m c ts (x ∷ xs) ys e h =
    let first : x ≡ m = cc e in
    let rest : ts ≡ xs ++ c ∷ ys = cc e in
    let h = subst (λ l. Linked n b m l m) rest h in
    rw first
      (Leads-through n b m c ys xs (linked_tail n b m c m xs ys h) (Leads-first n b m c m xs ys h))

pub Leads-before : (n : ℕ → ℕ) (p : ℕ) (xs ys : List ℕ) → Leads n p (xs ++ ys) → Leads n p xs
Leads-before n p [] ys h = tt
Leads-before n p (x ∷ xs) ys h = (h.0, Leads-before n x xs ys h.1)

pub Distinct-before : (xs ys : List ℕ) → Distinct (xs ++ ys) → Distinct xs
Distinct-before [] ys d = tt
Distinct-before (x ∷ xs) ys d = (off_before x xs ys d.0, Distinct-before xs ys d.1)

insert_between :
    (x : ℕ) (zs xs : List ℕ) → Distinct (zs ++ xs) → NotIn x (zs ++ xs) → Distinct (zs ++ x ∷ xs)
insert_between x [] xs d off = (off, d)
insert_between x (z ∷ zs) xs d off = (
  off_append z zs (x ∷ xs) (off_before z zs xs d.0) (λ e. off.0 (sym e), off_after z zs xs d.0),
  insert_between x zs xs d.1 off.1,
)

pub turn_round : (xs zs : List ℕ) → Distinct (xs ++ zs) → Distinct (zs ++ xs)
turn_round [] zs d = rw (append-nil zs) d
turn_round (x ∷ xs) zs d =
    insert_between x zs xs (turn_round xs zs d.1)
      (off_append x zs xs (off_after x xs zs d.0) (off_before x xs zs d.0))
