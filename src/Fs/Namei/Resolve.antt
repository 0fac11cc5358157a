-- ===== src/Fs/Namei/Resolve.antt =====
-- The path that is made of names is resolved name by name.
use linux.Base.{
  ℕ, zero, suc, ◌≡◌, ◌≤◌, refl, inl, inr, false, ◌&&◌, Option, none, some, List, [], ◌∷◌, ◌++◌,
  ◌==◌, if◌then◌else◌, length, length-append, Bool-cases, Option-cases, arith,
}
use linux.Kernel.Task.{Task}
use linux.Fs.Names.{component, read_name, skip_slashes, slash}
use linux.Fs.Names.Split.{SlashFree}
use linux.Fs.Permission.{permission}
use linux.Fs.Namei.Defs.{
  Node, Loads, Counts, Result, found, missing, gained, put, walk, start, namei, is_dot, is_end,
  is_dir, lookup_in, may_exec,
}

-- A name as a path component: not empty, of at most 14 bytes, without a slash, not `.`.
abbrev pub Component : List ℕ → Type 0
Component name = (is_end name ≡ false) × (length name ≤ 14) × SlashFree name × (is_dot name ≡ false)

abbrev pub Components : List (List ℕ) → Type 0
Components [] = Unit {0}
Components (name ∷ names) = Component name × Components names

-- name/name/.../name
abbrev pub joined : List ℕ → List (List ℕ) → List ℕ
joined name [] = name
joined name (next ∷ names) = name ++ slash ∷ joined next names

abbrev pub as_result : Option ℕ → Result
as_result none = missing
as_result (some nr) = found nr

-- The inode of a name and the names below it: each but the last is a directory that the task may
-- traverse.
unfoldable pub resolve : Task → Loads → Node → List ℕ → List (List ℕ) → Option ℕ
unfolding permission
resolve t d node name [] = elim (lookup_in node name) [
  | none ↦ none
  | some ino ↦ elim (d ino) [ none ↦ none | some next ↦ some ino ]
]
resolve t d node name (below ∷ names) = elim (lookup_in node name) [
  | none ↦ none
  | some ino ↦ elim (d ino) [
    | none ↦ none
    | some next ↦
        let inside = resolve t d next below names in
        if is_dir next && permission t next.inode may_exec then inside else none
  ]
]

read_name-last :
    (room : ℕ) (name : List ℕ)
    → length name ≤ room
    → SlashFree name
    → read_name room name ≡ (name, [])
unfolding read_name
read_name-last zero [] h free = refl
read_name-last zero (c ∷ cs) h free = absurd (omega arith)
read_name-last (suc room) [] h free = refl
read_name-last (suc room) (c ∷ cs) h (plain, free) =
    rw (plain, read_name-last room cs (omega arith) free) refl

read_name-more :
    (room : ℕ) (name p : List ℕ)
    → length name ≤ room
    → SlashFree name
    → 1 ≤ room
    → read_name room (name ++ slash ∷ p) ≡ (name, slash ∷ p)
unfolding read_name
read_name-more zero name p h free one = absurd (omega arith)
read_name-more (suc room) [] p h free one = refl
read_name-more (suc zero) (c ∷ []) p h (plain, free) one = rw plain refl
read_name-more (suc zero) (c ∷ d ∷ cs) p h free one = absurd (omega arith)
read_name-more (suc (suc room)) (c ∷ cs) p h (plain, free) one =
    rw (plain, read_name-more (suc room) cs p (omega arith) free (omega arith)) refl

-- A path starts with its first name's first character, which is no slash.
joined-plain :
    (name : List ℕ) (names : List (List ℕ))
    → Component name
    → (is_end (joined name names) ≡ false) × (skip_slashes (joined name names) ≡ joined name names)
unfolding skip_slashes
joined-plain [] names (some_name, short, free, r) = absurd (cc)
joined-plain (c ∷ cs) [] (some_name, short, (plain, free), r) = (refl, rw plain refl)
joined-plain (c ∷ cs) (next ∷ names) (some_name, short, (plain, free), r) = (refl, rw plain refl)

component-last : (name : List ℕ) → Component name → component name ≡ (name, [])
unfolding component skip_slashes
component-last name (some_name, short, free, r) =
    rw (read_name-last 15 name (omega arith) free) refl

component-more :
    (name next : List ℕ) (names : List (List ℕ))
    → Component name
    → Component next
    → component (joined name (next ∷ names)) ≡ (name, joined next names)
unfolding component skip_slashes
component-more name next names (some_name, short, free, r) ok =
    rw
      (
        read_name-more 15 name (joined next names) (omega arith) free (omega arith),
        (joined-plain next names ok).1,
      )
      refl

not_end : (p : List ℕ) → is_end p ≡ false → 1 ≤ length p
not_end [] h = absurd (cc)
not_end (c ∷ cs) h = omega arith

walk-last :
    (fuel : ℕ) (t : Task) (d : Loads) (nr : ℕ) (node : Node) (p name : List ℕ) (counts : Counts)
    → component p ≡ (name, [])
    → is_dot name ≡ false
    → (walk (suc fuel) t d nr node p counts).0 ≡ as_result (resolve t d node name [])
unfolding walk resolve
walk-last fuel t d nr node p name counts step plain = elim (Option-cases (lookup_in node name)) [
  | inl gone ↦ rw (resolve, step, plain, gone) refl
  | inr (ino, at) ↦ elim (Option-cases (d ino)) [
    | inl bad ↦ rw (resolve, step, plain, at, bad) refl
    | inr (below, load) ↦ rw (resolve, step, plain, at, load, step) refl
  ]
]

walk-joined :
    (fuel : ℕ) (t : Task) (d : Loads) (nr : ℕ) (node : Node) (name : List ℕ) (names : List (List ℕ))
    (counts : Counts)
    → length (joined name names) ≤ fuel
    → Component name
    → Components names
    → (walk fuel t d nr node (joined name names) counts).0 ≡ as_result (resolve t d node name names)
unfolding walk resolve
walk-joined zero t d nr node name names counts h ok oks =
    let more = not_end (joined name names) (joined-plain name names ok).0 in absurd (omega arith)
walk-joined (suc fuel) t d nr node name [] counts h ok oks =
    walk-last fuel t d nr node name name counts (component-last name ok) ok.3
walk-joined (suc fuel) t d nr node name (next ∷ names) counts h ok (ok', oks) =
    let plain : is_dot name ≡ false = ok.3 in
    let step = component-more name next names ok ok' in
    let more : is_end (joined next names) ≡ false = (joined-plain next names ok').0 in
    let short : length (joined next names) ≤ fuel =
      (let l = length-append name (slash ∷ joined next names) in omega arith) in
    elim (Option-cases (lookup_in node name)) [
      | inl gone ↦ rw (resolve, step, plain, gone) refl
      | inr (ino, at) ↦ elim (Option-cases (d ino)) [
        | inl bad ↦ rw (resolve, step, plain, at, bad) refl
        | inr (below, load) ↦
            elim (Bool-cases (is_dir below && permission t below.inode may_exec)) [
              | inl open_dir ↦
                  rw (resolve, step, plain, at, load, step, more, open_dir)
                    (walk-joined fuel t d ino below next names (gained (put counts nr) ino) short
                      ok' oks)
              | inr shut ↦ rw (resolve, step, plain, at, load, step, more, shut) refl
            ]
      ]
    ]

-- namei() of an absolute path of names resolves it from the root name by name, each name but the
-- last a directory that the task may traverse, and returns NULL where the names do not resolve. Each
-- name is not empty, fits 14 bytes, has no slash and is not `.`; the root is loaded.
pub namei_absolute :
    (t : Task) (d : Loads) (pwd : Option ℕ) (root : Node) (name : List ℕ) (names : List (List ℕ))
    (counts : Counts)
    → Component name
    → Components names
    → d 1 ≡ some root
    → (namei t d none pwd (slash ∷ joined name names) counts).0
      ≡ as_result (resolve t d root name names)
unfolding namei start
namei_absolute t d pwd root name names counts ok oks load =
    let (more, plain) = joined-plain name names ok in
    rw (start, load, more)
      (walk-joined (length (joined name names)) t d 1 root name names (gained counts 1)
        (omega arith) ok oks)

-- The same for a relative path, from the working directory.
pub namei_relative :
    (t : Task) (d : Loads) (root : Option ℕ) (pwd : ℕ) (here : Node) (name : List ℕ)
    (names : List (List ℕ)) (counts : Counts)
    → Component name
    → Components names
    → d pwd ≡ some here
    → (namei t d root (some pwd) (joined name names) counts).0
      ≡ as_result (resolve t d here name names)
unfolding namei start
namei_relative t d root pwd here [] names counts ok oks load = absurd (cc)
namei_relative t d root pwd here (c ∷ cs) [] counts ok oks load =
    let plain : c == slash ≡ false = ok.2.0 in
    rw (start, plain, load)
      (walk-joined (length (c ∷ cs)) t d pwd here (c ∷ cs) [] (gained counts pwd) (omega arith) ok
        oks)
namei_relative t d root pwd here (c ∷ cs) (next ∷ names) counts ok oks load =
    let plain : c == slash ≡ false = ok.2.0 in
    rw (start, plain, load)
      (walk-joined (length (joined (c ∷ cs) (next ∷ names))) t d pwd here (c ∷ cs) (next ∷ names)
        (gained counts pwd) (omega arith) ok oks)
