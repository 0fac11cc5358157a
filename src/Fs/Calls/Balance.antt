-- ===== src/Fs/Calls/Balance.antt =====
-- What a call takes of the reference counts.
use linux.Base.{
  ℕ, ◌+◌, ◌%◌, ◌<◌, ◌≡◌, ◌≢◌, refl, ap, subst, ◌∙◌, inl, inr, false, ◌&&◌, Option, none, some, List,
  ◌==◌, if◌then◌else◌, Bool-cases, Option-cases, arith,
}
use native.Mathlib.Decide.{ℕ_discrete}
use linux.Kernel.Task.{Task}
use linux.Fs.Names.{split_path}
use linux.Fs.Permission.{permission}
use linux.Fs.Namei.{Node, Counts, Result, found, missing, out_of_fuel, namei, gained, put, is_dir}
use linux.Fs.Namei.Balance.{holds, namei_counts}
use linux.Fs.Calls.Defs.{
  CallState, Answer, iput, fail, take_node, links_of, at_inode, at_path, may_write,
}
use linux.Fs.Calls.Entries.{in_parent, at_parts, writable_dir}

-- One reference to `nr`
abbrev pub own : ℕ → ℕ → ℕ
own nr k = if nr == k then 1 else 0

abbrev pub both : (ℕ → ℕ) → (ℕ → ℕ) → ℕ → ℕ
both d e k = d k + e k

abbrev pub none_of : ℕ → ℕ
none_of k = 0

-- i_count is an unsigned char.
abbrev pub Bytes : CallState → Type 0
Bytes w = (k : ℕ) → w.counts k < 256

-- Exactly the references `d` are given back, modulo 256, and the task's own inodes stay.
pub record Gives (d : ℕ → ℕ) (w w' : CallState) : Type 0 where
  pub counts : (k : ℕ) → ((w'.counts k + d k) % 256 ≡ w.counts k) × (w'.counts k < 256)
  pub same_pwd : w'.pwd ≡ w.pwd
  pub same_root : w'.root ≡ w.root

put_counts :
    (counts : Counts) (nr k : ℕ)
    → counts k < 256
    → ((put counts nr k + own nr k) % 256 ≡ counts k) × (put counts nr k < 256)
put_counts counts nr k = elim (ℕ_discrete nr k) [
  | yes e ↦
      subst
        (λ j.
          counts j < 256
          → ((put counts nr j + own nr j) % 256 ≡ counts j) × (put counts nr j < 256))
        e (λ g. (ground arith, ground arith))
  | no d ↦ λ g. (ground arith, ground arith)
]

pub iput-Gives : (nr : ℕ) (w : CallState) → Bytes w → Gives (own nr) w (iput nr w)
unfolding iput
iput-Gives nr w h = elim (Bool-cases ((put w.counts nr nr == 0) && links_of (w.nodes nr) == 0)) [
  | inl e ↦
      rw e (record {
        counts = (λ k. put_counts w.counts nr k (h k));
        same_pwd = refl;
        same_root = refl;
      })
  | inr e ↦
      rw e (record {
        counts = (λ k. put_counts w.counts nr k (h k));
        same_pwd = refl;
        same_root = refl;
      })
]

-- Two inodes given back one after the other, from a state with the same counts.
pub twice-Gives :
    (a b : ℕ) (w w0 : CallState)
    → w0.counts ≡ w.counts
    → w0.pwd ≡ w.pwd
    → w0.root ≡ w.root
    → Bytes w
    → Gives (both (own a) (own b)) w (iput a (iput b w0))
twice-Gives a b w w0 e p r h =
    let first =
      iput-Gives b w0 (λ k. let g = h k in let q = ap (λ (f : Counts). f k) e in omega arith) in
    let second = iput-Gives a (iput b w0) (λ k.
      let g = h k in let q = ap (λ (f : Counts). f k) e in let c = first.counts k in omega arith) in
    record {
      counts = (λ k.
          let c = second.counts k in
          let c' = first.counts k in let q = ap (λ (f : Counts). f k) e in omega arith);
      same_pwd = second.same_pwd ∙ first.same_pwd ∙ p;
      same_root = second.same_root ∙ first.same_root ∙ r;
    }

-- A reference that is taken first and given back in the end.
pub taken-Gives :
    (ino : ℕ) (d : ℕ → ℕ) (w w' : CallState)
    → Bytes w
    → Gives (both (own ino) d) (take_node ino w) w'
    → Gives d w w'
taken-Gives ino d w w' h g = record {
  counts = (λ k.
      let c = g.counts k in
      let b = h k in let t = gained_counts w.counts ino k (h k) in omega arith);
  same_pwd = g.same_pwd;
  same_root = g.same_root;
}
  where
    gained_counts :
        (counts : Counts) (nr k : ℕ)
        → counts k < 256
        → gained counts nr k ≡ (counts k + own nr k) % 256
    gained_counts counts nr k = elim (ℕ_discrete nr k) [
      | yes e ↦
          subst (λ j. counts j < 256 → gained counts nr j ≡ (counts j + own nr j) % 256) e
            (λ h. ground arith)
      | no d ↦ λ h. ground arith
    ]

pub Bytes-taken : (ino : ℕ) (w : CallState) → Bytes w → Bytes (take_node ino w)
Bytes-taken ino w h k = let g = h k in ground arith

-- The three ways of a call on the inode of a path.
pub at_path_cases :
    (t : Task) (path : List ℕ) (w : CallState) (null : CallState → Answer)
    (body : ℕ → Node → CallState → Answer) (P : Answer → Type 0)
    → ((counts : Counts)
        → ((k : ℕ) → w.counts k < 256 → counts k ≡ w.counts k)
        → P (null (record w { counts = counts })))
    → ((nr : ℕ) (n : Node) (counts : Counts)
        → w.nodes nr ≡ some n
        → ((k : ℕ) → w.counts k < 256 → counts k ≡ (w.counts k + own nr k) % 256)
        → P (body nr n (record w { counts = counts })))
    → ((nr : ℕ) (counts : Counts)
        → ((k : ℕ) → w.counts k < 256 → counts k ≡ (w.counts k + own nr k) % 256)
        → P (null (iput nr (record w { counts = counts }))))
    → P (at_path t path w null body)
unfolding at_path
at_path_cases t path w null body P nulls bodies unloaded =
    let (ends, held) = namei_counts t w.nodes w.root w.pwd path w.counts in
    go (namei t w.nodes w.root w.pwd path w.counts).0 ends held
  where
    go :
        (r : Result)
        → r ≢ out_of_fuel
        → ((k : ℕ)
            → w.counts k < 256
            → (namei t w.nodes w.root w.pwd path w.counts).1 k ≡ (w.counts k + holds r k) % 256)
        → P (
            at_inode r
              (record w { counts = (namei t w.nodes w.root w.pwd path w.counts).1 })
              null
              body)
    go missing ends held =
        nulls (namei t w.nodes w.root w.pwd path w.counts).1
          (λ k h. let g = held k h in omega arith)
    go out_of_fuel ends held = absurd (ends refl)
    go (found nr) ends held = elim (Option-cases (w.nodes nr)) [
      | inl e ↦ rw e (unloaded nr (namei t w.nodes w.root w.pwd path w.counts).1 held)
      | inr (n, e) ↦ rw e (bodies nr n (namei t w.nodes w.root w.pwd path w.counts).1 e held)
    ]

-- A body that gives back its inode and `d` makes a call that gives back `d`.
pub at_path-Gives :
    (t : Task) (path : List ℕ) (d : ℕ → ℕ) (w : CallState) (null : CallState → Answer)
    (body : ℕ → Node → CallState → Answer)
    → ((w' : CallState) → Bytes w' → Gives d w' (null w').1)
    → ((nr : ℕ) (n : Node) (w' : CallState)
        → Bytes w'
        → Gives (both (own nr) d) w' (body nr n w').1)
    → Bytes w
    → Gives d w (at_path t path w null body).1
at_path-Gives t path d w null body nulls bodies h =
    at_path_cases t path w null body (λ r. Gives d w r.1)
      (λ counts e.
        let w' : CallState = record w { counts = counts } in
        let g = nulls w' (λ k. let q = h k in let c = e k (h k) in omega arith) in
        record {
          counts = (λ k. let q = g.counts k in let c = e k (h k) in omega arith);
          same_pwd = g.same_pwd;
          same_root = g.same_root;
        })
      (λ nr n counts here e.
        let w' : CallState = record w { counts = counts } in
        let g = bodies nr n w' (λ k. let q = h k in let c = e k (h k) in omega arith) in
        record {
          counts = (λ k. let q = g.counts k in let c = e k (h k) in omega arith);
          same_pwd = g.same_pwd;
          same_root = g.same_root;
        })
      (λ nr counts e.
        let w' : CallState = record w { counts = counts } in
        let one = iput-Gives nr w' (λ k. let q = h k in let c = e k (h k) in omega arith) in
        let g =
          nulls (iput nr w')
            (λ k. let q = h k in let c = e k (h k) in let o = one.counts k in omega arith) in
        record {
          counts =
              (λ k. let q = g.counts k in let c = e k (h k) in let o = one.counts k in omega arith);
          same_pwd = g.same_pwd ∙ one.same_pwd;
          same_root = g.same_root ∙ one.same_root;
        })

-- The same for a call on the directory of a path.
pub in_parent-Gives :
    (t : Task) (path : List ℕ) (d : ℕ → ℕ) (clean : CallState → CallState)
    (body : List ℕ → ℕ → Node → CallState → Answer)
    → ((w' : CallState) → Bytes w' → Gives d w' (clean w'))
    → ((name : List ℕ) (nr : ℕ) (dir : Node) (w' : CallState)
        → Bytes w'
        → Gives (both (own nr) d) w' (body name nr dir w').1)
    → (w : CallState) → Bytes w
    → Gives d w (in_parent t path clean body w).1
unfolding in_parent
in_parent-Gives t path d clean body cleans bodies w h = go (split_path path)
  where
    failing :
        (nr : ℕ) (w' : CallState) → Bytes w' → Gives (both (own nr) d) w' (fail nr (clean w')).1
    failing nr w' h' =
        let first = cleans w' (λ k. let q = h' k in omega arith) in
        let second =
          iput-Gives nr (clean w') (λ k. let q = h' k in let c = first.counts k in omega arith) in
        record {
          counts = (λ k. let c = first.counts k in let c' = second.counts k in omega arith);
          same_pwd = second.same_pwd ∙ first.same_pwd;
          same_root = second.same_root ∙ first.same_root;
        }

    checked :
        (name : List ℕ) (nr : ℕ) (dir : Node) (w' : CallState)
        → Bytes w'
        → Gives (both (own nr) d) w' (writable_dir t clean (body name) nr dir w').1
    checked name nr dir w' h' = elim (Bool-cases (is_dir dir)) [
      | inr e ↦ rw e (failing nr w' h')
      | inl e ↦ elim (Bool-cases (permission t dir.inode may_write)) [
        | inr p ↦ rw (e, p) (failing nr w' h')
        | inl p ↦ rw (e, p) (bodies name nr dir w' h')
      ]
    ]

    go : (parts : Option (List ℕ × List ℕ)) → Gives d w (at_parts t clean body w parts).1
    go none = cleans w h
    go (some (dirpath, name)) =
        at_path-Gives t dirpath d w (λ w'. (false, clean w')) (writable_dir t clean (body name))
          cleans (checked name) h
