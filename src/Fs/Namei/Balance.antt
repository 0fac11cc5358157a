-- ===== src/Fs/Namei/Balance.antt =====
-- namei() keeps exactly the reference that it returns.
use linux.Base.{
  ℕ, zero, suc, ◌+◌, ◌*◌, ◌%◌, ◌≡◌, ◌≢◌, ◌≤◌, ◌<◌, sym, subst, ◌∙◌, inl, inr, false, ◌&&◌, Option,
  none, some, List, [], ◌∷◌, ◌==◌, if◌then◌else◌, length, Bool-cases, Option-cases, arith,
}
use native.Mathlib.Decide.{ℕ_discrete}
use linux.Kernel.Task.{Task}
use linux.Fs.Names.{component, read_name, skip_slashes, slash}
use linux.Fs.Permission.{permission}
use linux.Fs.Namei.Defs.{
  Node, Loads, Counts, Result, found, missing, out_of_fuel, gained, put, walk, start, namei, is_dot,
  is_end, is_dir, lookup_in, may_exec, root_of,
}

-- How often a result holds an inode.
abbrev pub holds : Result → ℕ → ℕ
holds (found nr) k = if nr == k then 1 else 0
holds missing k = 0
holds out_of_fuel k = 0

-- A reference to `nr` is exchanged for what the result holds, modulo 256.
abbrev pub Exchanged : ℕ → Counts → Result × Counts → Type 0
Exchanged nr counts r =
    (r.0 ≢ out_of_fuel)
    × ((k : ℕ)
        → counts k < 256
        → r.1 k ≡ (counts k + holds r.0 k + 255 * (if nr == k then 1 else 0)) % 256)

skip_slashes-length : (p : List ℕ) → length (skip_slashes p) ≤ length p
unfolding skip_slashes
skip_slashes-length [] = omega arith
skip_slashes-length (c ∷ cs) = elim (Bool-cases (c == slash)) [
  | inl e ↦ rw e (let h = skip_slashes-length cs in omega arith)
  | inr e ↦ rw e (omega arith)
]

read_name-length : (room : ℕ) (p : List ℕ) → length (read_name room p).1 ≤ length p
unfolding read_name
read_name-length zero p = omega arith
read_name-length (suc room) [] = omega arith
read_name-length (suc room) (c ∷ cs) = elim (Bool-cases (c == slash)) [
  | inl e ↦ rw e (omega arith)
  | inr e ↦ rw e (let h = read_name-length room cs in omega arith)
]

-- A round of the loop uses at least one character.
pub component-length : (c : ℕ) (cs : List ℕ) → length (component (c ∷ cs)).1 ≤ length cs
unfolding component read_name skip_slashes
component-length c cs = elim (Bool-cases (c == slash)) [
  | inl e ↦ rw (e, e) (skip_slashes-length cs)
  | inr e ↦ rw e (
      let h = skip_slashes-length (read_name 14 cs).1 in
      let g = read_name-length 14 cs in omega arith)
]

put-Exchanged : (nr : ℕ) (counts : Counts) → Exchanged nr counts (missing, put counts nr)
put-Exchanged nr counts = (
  (λ e. cc),
  (λ k h. elim (ℕ_discrete nr k) [
    | yes same ↦ subst (λ j. P j) same (ground arith)
    | no other ↦ ground arith
  ]),
)
  where
    P : ℕ → Type 0
    P k = put counts nr k ≡ (counts k + 0 + 255 * (if nr == k then 1 else 0)) % 256

-- The walk lets one inode go and takes another.
moved :
    (nr ino : ℕ) (counts : Counts) (k : ℕ)
    → counts k < 256
    → gained (put counts nr) ino k
      ≡ (counts k + (if ino == k then 1 else 0) + 255 * (if nr == k then 1 else 0)) % 256
moved nr ino counts k = elim (ℕ_discrete nr k) [
  | yes e ↦ elim (ℕ_discrete ino k) [
    | yes e' ↦ subst (λ i. P nr i k) (e ∙ sym e') (subst (λ i. P nr nr i) e (λ h. ground arith))
    | no d' ↦
        subst (λ i. P nr ino i) e (let d : ino ≢ nr = (λ x. d' (x ∙ e)) in (λ h. ground arith))
  ]
  | no d ↦ elim (ℕ_discrete ino k) [
    | yes e' ↦
        subst (λ i. P nr ino i) e' (let d' : nr ≢ ino = (λ x. d (x ∙ e')) in (λ h. ground arith))
    | no d' ↦ λ h. ground arith
  ]
]
  where
    P : ℕ → ℕ → ℕ → Type 0
    P nr ino k =
        counts k < 256
        → gained (put counts nr) ino k
          ≡ (counts k + (if ino == k then 1 else 0) + 255 * (if nr == k then 1 else 0)) % 256

-- What holds after the walk has moved to another inode holds for the walk as a whole.
moved-Exchanged :
    (nr ino : ℕ) (counts : Counts) (r : Result × Counts)
    → Exchanged ino (gained (put counts nr) ino) r
    → Exchanged nr counts r
moved-Exchanged nr ino counts r (done, later) =
    (done, (λ k h. let a = moved nr ino counts k h in let b = later k (omega arith) in omega arith))

walk-lem :
    (fuel : ℕ) (t : Task) (d : Loads) (nr : ℕ) (node : Node) (p : List ℕ) (counts : Counts)
    → length p ≤ fuel
    → is_end p ≡ false
    → Exchanged nr counts (walk fuel t d nr node p counts)
unfolding walk
walk-lem fuel t d nr node [] counts enough more = absurd (cc)
walk-lem zero t d nr node (c ∷ cs) counts enough more = absurd (omega arith)
walk-lem (suc fuel) t d nr node (c ∷ cs) counts enough more =
    let p = c ∷ cs in
    let rest = (component p).1 in
    let name = (component p).0 in
    let short : length rest ≤ fuel = let g = component-length c cs in omega arith in
    let stays : is_end rest ≡ false → Exchanged nr counts (walk fuel t d nr node rest counts) =
      (λ e. walk-lem fuel t d nr node rest counts short e) in
    elim (Bool-cases (is_dot name)) [
      | inl dot ↦ elim (Bool-cases (is_end rest)) [
        | inl e ↦ rw (dot, e) ((λ x. cc), (λ k h. omega arith))
        | inr e ↦ elim (Bool-cases (permission t node.inode may_exec)) [
          | inl ok ↦ rw (dot, e, ok) (stays e)
          | inr bad ↦ rw (dot, e, bad) (put-Exchanged nr counts)
        ]
      ]
      | inr dot ↦ elim (Option-cases (lookup_in node name)) [
        | inl gone ↦ rw (dot, gone) (put-Exchanged nr counts)
        | inr (ino, at) ↦ elim (Option-cases (d ino)) [
          | inl bad ↦ rw (dot, at, bad) (put-Exchanged nr counts)
          | inr (next, load) ↦
              let held = gained (put counts nr) ino in
              elim (Bool-cases (is_end rest)) [
                | inl e ↦ rw (dot, at, load, e) ((λ x. cc), moved nr ino counts)
                | inr e ↦ elim (Bool-cases (is_dir next && permission t next.inode may_exec)) [
                  | inl ok ↦
                      rw (dot, at, load, e, ok)
                        (moved-Exchanged nr ino counts (walk fuel t d ino next rest held)
                          (walk-lem fuel t d ino next rest held short e))
                  | inr bad ↦
                      rw (dot, at, load, e, bad)
                        (moved-Exchanged nr ino counts (missing, put held ino)
                          (put-Exchanged ino held))
                ]
              ]
        ]
      ]
    ]

start-lem :
    (t : Task) (d : Loads) (from : Option ℕ) (p : List ℕ) (counts : Counts)
    → ((start t d from p counts).0 ≢ out_of_fuel)
      × ((k : ℕ)
          → counts k < 256
          → (start t d from p counts).1 k ≡ (counts k + holds (start t d from p counts).0 k) % 256)
unfolding start
start-lem t d none p counts = ((λ x. cc), (λ k h. omega arith))
start-lem t d (some nr) p counts = elim (Option-cases (d nr)) [
  | inl e ↦ rw (start, e) ((λ x. cc), (λ k h. omega arith))
  | inr (node, e) ↦ elim (Bool-cases (is_end p)) [
    | inl stop ↦ rw (start, e, stop) ((λ x. cc), taken nr)
    | inr more ↦
        let held = gained counts nr in
        let (done, later) = walk-lem (length p) t d nr node p held (omega arith) more in
        rw (start, e, more)
          (done, (λ k h. let b = taken nr k h in let a = later k (omega arith) in omega arith))
  ]
]
  where
    taken :
        (nr k : ℕ)
        → counts k < 256
        → gained counts nr k ≡ (counts k + (if nr == k then 1 else 0)) % 256
    taken nr k = elim (ℕ_discrete nr k) [
      | yes e ↦
          subst
            (λ i.
              counts i < 256 → gained counts nr i ≡ (counts i + (if nr == i then 1 else 0)) % 256)
            e (λ h. ground arith)
      | no other ↦ λ h. ground arith
    ]

-- Modulo 256, as i_count is a byte.
pub namei_counts :
    (t : Task) (d : Loads) (root pwd : Option ℕ) (p : List ℕ) (counts : Counts)
    → ((namei t d root pwd p counts).0 ≢ out_of_fuel)
      × ((k : ℕ)
          → counts k < 256
          → (namei t d root pwd p counts).1 k
            ≡ (counts k + holds (namei t d root pwd p counts).0 k) % 256)
unfolding namei
namei_counts t d root pwd [] counts = start-lem t d pwd [] counts
namei_counts t d root pwd (c ∷ cs) counts = elim (Bool-cases (c == slash)) [
  | inl e ↦ rw e (start-lem t d (some (root_of root)) cs counts)
  | inr e ↦ rw e (start-lem t d pwd (c ∷ cs) counts)
]

holds-le : (r : Result) (k : ℕ) → holds r k ≤ 1
holds-le (found nr) k = ground arith
holds-le missing k = omega arith
holds-le out_of_fuel k = omega arith

-- namei() always ends, and when it does, an inode that had at most 254 references has one more if it
-- is the one that namei() returns, and as many as before if it is another one: where namei() fails,
-- every reference that the walk took has been given back. i_count is a byte.
pub namei_balanced :
    (t : Task) (d : Loads) (root pwd : Option ℕ) (p : List ℕ) (counts : Counts)
    → ((namei t d root pwd p counts).0 ≢ out_of_fuel)
      × ((k : ℕ)
          → counts k ≤ 254
          → (namei t d root pwd p counts).1 k ≡ counts k + holds (namei t d root pwd p counts).0 k)
namei_balanced t d root pwd p counts =
    let (ends, later) = namei_counts t d root pwd p counts in
    (
      ends,
      (λ k h.
          let e = later k (omega arith) in
          let one = holds-le (namei t d root pwd p counts).0 k in omega arith),
    )
