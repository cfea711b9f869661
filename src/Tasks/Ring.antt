-- ===== src/Tasks/Ring.antt =====
-- The ring of the tasks: from the main task along `next`, and back along `prev`.
use owmice.Base.{
  ℕ, ◌≡◌, ◌≢◌, refl, sym, ◌∙◌, Bool, true, false, List, [], ◌∷◌, ◌++◌, ◌==◌, if◌then◌else◌,
}
use owmice.Tasks.{Task, Tasking, put}

abbrev pub next_of : Tasking → ℕ → ℕ
next_of s p = (s.tasks p).next

abbrev pub prev_of : Tasking → ℕ → ℕ
prev_of s p = (s.tasks p).prev

-- The last of `p` and the tasks behind it.
abbrev pub last_of : ℕ → List ℕ → ℕ
last_of p [] = p
last_of p (q ∷ qs) = last_of q qs

-- `p` is none of the tasks.
abbrev pub NotIn : ℕ → List ℕ → Type 0
NotIn p [] = Unit
NotIn p (q ∷ qs) = (p ≢ q) × NotIn p qs

abbrev pub Distinct : List ℕ → Type 0
Distinct [] = Unit
Distinct (p ∷ ps) = NotIn p ps × Distinct ps

-- From `p` on, `next` leads along the tasks and then to `end`, and `prev` leads back to `p`.
abbrev pub Linked : (ℕ → ℕ) → (ℕ → ℕ) → ℕ → List ℕ → ℕ → Type 0
Linked n b p [] end = n p ≡ end
Linked n b p (q ∷ qs) end = (n p ≡ q) × (b q ≡ p) × Linked n b q qs end

-- The `prev` of the main task is the last one, once there are others.
abbrev pub Closed : (ℕ → ℕ) → ℕ → List ℕ → Type 0
Closed b p [] = Unit
Closed b p (q ∷ qs) = b p ≡ last_of q qs

-- The tasks are `task_main` and `ts`, in this order, and `task_last` is the last of them.
pub record IsRing (task_main : ℕ) (s : Tasking) (ts : List ℕ) : Type 0 where
  pub linked : Linked (next_of s) (prev_of s) task_main ts task_main
  pub last : s.task_last ≡ last_of task_main ts
  pub closed : Closed (prev_of s) task_main ts
  pub distinct : Distinct (task_main ∷ ts)

-- The same links for all of the tasks.
abbrev pub Agree : (ℕ → ℕ) → (ℕ → ℕ) → List ℕ → Type 0
Agree n n' [] = Unit
Agree n n' (q ∷ qs) = (n' q ≡ n q) × Agree n n' qs

pub same_off :
    (n n' : ℕ → ℕ) (u : ℕ) (ts : List ℕ)
    → ((r : ℕ) → u ≢ r → n' r ≡ n r)
    → NotIn u ts
    → Agree n n' ts
same_off n n' u [] same off = tt
same_off n n' u (q ∷ qs) same off = (same q off.0, same_off n n' u qs same off.1)

pub frame :
    (n b n' b' : ℕ → ℕ) (p : ℕ) (ts : List ℕ) (end : ℕ)
    → Agree n n' (p ∷ ts)
    → Agree b b' ts
    → Linked n b p ts end
    → Linked n' b' p ts end
frame n b n' b' p [] end same back h = same.0 ∙ h
frame n b n' b' p (q ∷ qs) end same back h =
    (same.0 ∙ h.0, back.0 ∙ h.1, frame n b n' b' q qs end same.1 back.1 h.2)

pub same_all : (n n' : ℕ → ℕ) (ts : List ℕ) → ((r : ℕ) → n' r ≡ n r) → Agree n n' ts
same_all n n' [] same = tt
same_all n n' (q ∷ qs) same = (same q, same_all n n' qs same)

pub not_last : (p q : ℕ) (qs : List ℕ) → NotIn p (q ∷ qs) → p ≢ last_of q qs
not_last p q [] off = off.0
not_last p q (r ∷ rs) off = not_last p r rs off.1

-- The parts of a list without `p`.
pub off_before : (p : ℕ) (xs ys : List ℕ) → NotIn p (xs ++ ys) → NotIn p xs
off_before p [] ys off = tt
off_before p (x ∷ xs) ys off = (off.0, off_before p xs ys off.1)

pub off_after : (p : ℕ) (xs ys : List ℕ) → NotIn p (xs ++ ys) → NotIn p ys
off_after p [] ys off = off
off_after p (x ∷ xs) ys off = off_after p xs ys off.1

pub off_append : (p : ℕ) (xs ys : List ℕ) → NotIn p xs → NotIn p ys → NotIn p (xs ++ ys)
off_append p [] ys off off' = off'
off_append p (x ∷ xs) ys off off' = (off.0, off_append p xs ys off.1 off')

pub apart_append : (xs : List ℕ) (t : ℕ) → Distinct xs → NotIn t xs → Distinct (xs ++ t ∷ [])
apart_append [] t d off = (tt, tt)
apart_append (x ∷ xs) t d off =
    (off_append x xs (t ∷ []) d.0 (λ e. off.0 (sym e), tt), apart_append xs t d.1 off.1)

pub apart_without :
    (xs : List ℕ) (t : ℕ) (ys : List ℕ) → Distinct (xs ++ t ∷ ys) → Distinct (xs ++ ys)
apart_without [] t ys d = d.1
apart_without (x ∷ xs) t ys d = (
  off_append x xs ys (off_before x xs (t ∷ ys) d.0) (off_after x xs (t ∷ ys) d.0).1,
  apart_without xs t ys d.1,
)

unfoldable pub last_of-append :
    (p : ℕ) (xs : List ℕ) (t : ℕ) (ys : List ℕ) → last_of p (xs ++ t ∷ ys) ≡ last_of t ys
last_of-append p [] t ys = refl
last_of-append p (x ∷ xs) t ys = last_of-append x xs t ys

-- A field of one of two tasks.
pub field_either :
    (g : Task → ℕ) (c : Bool) (x y : Task) (v : ℕ)
    → g x ≡ v
    → g (if c then x else y) ≡ (if c then v else g y)
field_either g true x y v e = e
field_either g false x y v e = refl

pub field_kept : (g : Task → ℕ) (c : Bool) (x y : Task) → g x ≡ g y → g (if c then x else y) ≡ g y
field_kept g true x y e = e
field_kept g false x y e = refl

-- What a write to a task does to the links.
module _ (s : Tasking) (p r : ℕ) (f : Task → Task) where
  pub next_put :
      (q : ℕ)
      → ((t : Task) → (f t).next ≡ q)
      → next_of (put s p f) r ≡ (if r == p then q else next_of s r)
  next_put q e = field_either (λ t. t.next) (r == p) (f (s.tasks r)) (s.tasks r) q (e (s.tasks r))

  pub prev_put :
      (q : ℕ)
      → ((t : Task) → (f t).prev ≡ q)
      → prev_of (put s p f) r ≡ (if r == p then q else prev_of s r)
  prev_put q e = field_either (λ t. t.prev) (r == p) (f (s.tasks r)) (s.tasks r) q (e (s.tasks r))

  pub next_kept : ((t : Task) → (f t).next ≡ t.next) → next_of (put s p f) r ≡ next_of s r
  next_kept e = field_kept (λ t. t.next) (r == p) (f (s.tasks r)) (s.tasks r) (e (s.tasks r))

  pub prev_kept : ((t : Task) → (f t).prev ≡ t.prev) → prev_of (put s p f) r ≡ prev_of s r
  prev_kept e = field_kept (λ t. t.prev) (r == p) (f (s.tasks r)) (s.tasks r) (e (s.tasks r))
