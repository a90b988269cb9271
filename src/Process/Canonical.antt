-- ===== src/Process/Canonical.antt =====
-- `ProcessTable` of kernel/src/process.rs as a map: the list of entries in the order of their keys is
-- determined by the lookups.
use mathlib.Core.Option.{map as option_map}
use rix_os.Base.{
  ℕ, suc, ◌<◌, ◌≤◌, ◌≡◌, refl, sym, ap, ap₂, ◌∙◌, ◌≢◌, inl, inr, false, none, some, some_eq, [],
  ◌∷◌, ◌==◌, ltb, if◌then◌else◌, arith, Bool-cases, ==_iff, subst, Option-cases,
}
use rix_os.Process.{
  ProcessControlBlock, Entries, insert_entry, find_entry, ProcessTable, insert, get, update,
}
use rix_os.Process.Table.{update-some, get-update_self, get-update_ne, update-none, next_pid-update}

-- The keys ascend, from `lo` on.
abbrev pub IsSorted : (lo : ℕ) → Entries → Type 0
IsSorted lo [] = Unit {0}
IsSorted lo ((j, w) ∷ m) = (lo ≤ j) × IsSorted (suc j) m

insert_entry-IsSorted :
    (lo k : ℕ) (v : ProcessControlBlock) (m : Entries)
    → lo ≤ k
    → IsSorted lo m
    → IsSorted lo (insert_entry k v m)
unfolding insert_entry
insert_entry-IsSorted lo k v [] h s = (h, tt)
insert_entry-IsSorted lo k v ((j, w) ∷ m) h s = elim (Bool-cases (k == j)) [
  | inl e ↦
      let tail : IsSorted (suc k) m =
        subst (λ i. IsSorted (suc i) m) (sym ((==_iff k j).0 e)) s.1 in
      rw e (h, tail)
  | inr n ↦ elim (Bool-cases (ltb k j)) [
    | inl l ↦ let lt : suc k ≤ j = ground arith in rw (n, l) (h, (lt, s.1))
    | inr g ↦
        let gt : suc j ≤ k = ground arith in
        rw (n, g) (s.0, insert_entry-IsSorted (suc j) k v m gt s.1)
  ]
]

find_below : (lo k : ℕ) (m : Entries) → IsSorted lo m → k < lo → find_entry k m ≡ none
unfolding find_entry
find_below lo k [] s h = refl
find_below lo k ((j, w) ∷ m) s h =
    let differ : (j == k) ≡ false = ground arith in
    rw differ (find_below (suc j) k m s.1 (omega (arith, s.0)))

-- The tails agree where lists with equal first keys do.
tail_agrees :
    (j : ℕ) (v w : ProcessControlBlock) (m n : Entries)
    → IsSorted (suc j) m
    → IsSorted (suc j) n
    → ((k : ℕ) → find_entry k ((j, v) ∷ m) ≡ find_entry k ((j, w) ∷ n))
    → (k : ℕ) → find_entry k m ≡ find_entry k n
unfolding find_entry
tail_agrees j v w m n s t same k = elim (Bool-cases (j == k)) [
  | inl e ↦
      let below : k < suc j = omega (arith, (==_iff j k).0 e) in
      find_below (suc j) k m s below ∙ sym (find_below (suc j) k n t below)
  | inr d ↦ ground (arith, same k)
]

find_first : (j : ℕ) (v : ProcessControlBlock) (m : Entries) → find_entry j ((j, v) ∷ m) ≡ some v
unfolding find_entry
find_first j v m = ground arith

find_nothing : (k : ℕ) → find_entry k [] ≡ none
unfolding find_entry
find_nothing k = refl

none≢some : {v : ProcessControlBlock} → none ≡ some v → ⊥
none≢some e = cc

-- A smaller first key is found in one list only.
first_differs :
    (lo j i : ℕ) (v w : ProcessControlBlock) (m n : Entries)
    → IsSorted lo ((i, w) ∷ n)
    → j < i
    → ((k : ℕ) → find_entry k ((j, v) ∷ m) ≡ find_entry k ((i, w) ∷ n))
    → ⊥
first_differs lo j i v w m n t l same =
    none≢some
      (sym (find_below i j ((i, w) ∷ n) (omega arith, t.1) l) ∙ sym (same j) ∙ find_first j v m)

-- Entries in the order of their keys that agree on each lookup are the same list.
entries_ext :
    (lo : ℕ) (m n : Entries)
    → IsSorted lo m
    → IsSorted lo n
    → ((k : ℕ) → find_entry k m ≡ find_entry k n)
    → m ≡ n
entries_ext lo [] [] s t same = refl
entries_ext lo [] ((i, w) ∷ n) s t same =
    absurd (none≢some (sym (find_nothing i) ∙ same i ∙ find_first i w n))
entries_ext lo ((j, v) ∷ m) [] s t same =
    absurd (none≢some (sym (find_nothing j) ∙ sym (same j) ∙ find_first j v m))
entries_ext lo ((j, v) ∷ m) ((i, w) ∷ n) s t same = elim (Bool-cases (ltb j i)) [
  | inl l ↦ absurd (first_differs lo j i v w m n t (ground arith) same)
  | inr g ↦ elim (Bool-cases (ltb i j)) [
    | inl l ↦ absurd (first_differs lo i j w v n m s (ground arith) (λ k. sym (same k)))
    | inr g' ↦
        let eq : i ≡ j = ground arith in
        let t' : IsSorted (suc j) n = subst (λ k. IsSorted (suc k) n) eq t.1 in
        let same' : (k : ℕ) → find_entry k ((j, v) ∷ m) ≡ find_entry k ((j, w) ∷ n) =
          λ k. same k ∙ ap (λ i. find_entry k ((i, w) ∷ n)) eq in
        let values : v ≡ w = some_eq (sym (find_first j v m) ∙ same' j ∙ find_first j w n) in
        ap₂ (λ e m. e ∷ m) (ap₂ (λ j v. (j, v)) (sym eq) values)
          (entries_ext (suc j) m n s.1 t' (tail_agrees j v w m n s.1 t' same'))
  ]
]

-- The invariant of a `BTreeMap`.
abbrev pub IsOrdered : ProcessTable → Type 0
IsOrdered t = IsSorted 0 t.processes

pub table_ext :
    (t u : ProcessTable)
    → IsOrdered t
    → IsOrdered u
    → t.next_pid ≡ u.next_pid
    → ((k : ℕ) → get k t ≡ get k u)
    → t ≡ u
unfolding get
table_ext t u s r n same =
    ap₂ (λ m p. record { processes = m; next_pid = p })
      (entries_ext 0 t.processes u.processes s r same) n

pub insert-IsOrdered :
    (pcb : ProcessControlBlock) (t : ProcessTable) → IsOrdered t → IsOrdered (insert pcb t)
unfolding insert
insert-IsOrdered pcb t s = insert_entry-IsSorted 0 pcb.pid pcb t.processes (omega arith) s

pub update-IsOrdered :
    (pid : ℕ) (f : ProcessControlBlock → ProcessControlBlock) (t : ProcessTable)
    → IsOrdered t
    → IsOrdered (update pid f t)
update-IsOrdered pid f t s = elim (Option-cases (find_entry pid t.processes)) [
  | inl e ↦ subst IsOrdered (sym (update-none pid f t (unfold get in e))) s
  | inr (pcb, e) ↦
      subst IsOrdered (sym (update-some pid f t pcb e))
        (insert_entry-IsSorted 0 pid (f pcb) t.processes (omega arith) s)
]

-- A look-up after an update, whether there is an entry or not.
pub get-update :
    (pid k : ℕ) (f : ProcessControlBlock → ProcessControlBlock) (t : ProcessTable)
    → get k (update pid f t) ≡ (if k == pid then option_map f (get k t) else get k t)
get-update pid k f t = elim (Bool-cases (k == pid)) [
  | inr n ↦ rw n (get-update_ne pid k f t (ground arith))
  | inl e ↦
      rw (e, (==_iff k pid).0 e)
        (elim (Option-cases (get pid t)) [
          | inl a ↦ ap (get pid) (update-none pid f t a) ∙ a ∙ sym (ap (option_map f) a)
          | inr (pcb, a) ↦ get-update_self pid f t pcb a ∙ sym (ap (option_map f) a)
        ])
]

-- Updates of two processes commute.
pub update_comm :
    (p q : ℕ) (f g : ProcessControlBlock → ProcessControlBlock) (t : ProcessTable)
    → IsOrdered t
    → p ≢ q
    → update p f (update q g t) ≡ update q g (update p f t)
update_comm p q f g t s ne =
    table_ext _ _ (update-IsOrdered p f _ (update-IsOrdered q g t s))
      (update-IsOrdered q g _ (update-IsOrdered p f t s))
      (next_pid-update p f _
        ∙ next_pid-update q g t
        ∙ sym (next_pid-update p f t)
        ∙ sym (next_pid-update q g _))
      (λ k.
        get-update p k f (update q g t)
        ∙ ground (arith, get-update q k g t, get-update p k f t)
        ∙ sym (get-update q k g (update p f t)))
