-- ===== src/Fs/Namei/Examples.antt =====
-- Concrete paths and permissions.
use linux.Base.{
  ℕ, ◌≡◌, ◌≢◌, ◌≤◌, ◌⊎◌, ◌↔◌, ◌+◌, refl, true, false, none, some, [], ◌∷◌, ◌++◌, arith,
}
use linux.Fs.Names.{padded, name_eq, component, read_name, skip_slashes, slash}
use linux.Fs.Directory.{find}
use linux.Fs.Permission.{permission, permission_lem, Granted, same_bits, class_shift}
use linux.Fs.Namei.Defs.{found, missing, out_of_fuel, walk, start, namei, may_exec}
use linux.Fs.Namei.Balance.{holds, namei_balanced}
use linux.Fs.Namei.Resolve.{Component, joined, as_result, resolve, namei_absolute, namei_relative}
use linux.Fs.Namei.Samples.{user, grouped, a, b, root, below, disk, idle}

may_exec_narrow : (k : ℕ) → 3 ≤ k → may_exec k ≡ false
may_exec_narrow k h = ground arith

permission_lem_example : (permission user grouped may_exec ≡ true) ↔ (
    ((grouped.dev ≡ 0) ⊎ (grouped.nlinks ≢ 0)) × ((user.euid ≡ 0) ⊎ Granted user grouped may_exec))
permission_lem_example = permission_lem user grouped may_exec may_exec_narrow

group_granted : permission user grouped may_exec ≡ true
unfolding permission same_bits class_shift
group_granted = refl

a-Component : Component a
a-Component = (refl, omega arith, (refl, tt), refl)

b-Component : Component b
b-Component = (refl, omega arith, (refl, tt), refl)

namei_absolute_example :
    (namei user disk none none (slash ∷ joined a (b ∷ [])) idle).0
    ≡ as_result (resolve user disk root a (b ∷ []))
namei_absolute_example =
    namei_absolute user disk none root a (b ∷ []) idle a-Component (b-Component, tt) refl

namei_relative_example :
    (namei user disk none (some 3) (joined b []) idle).0 ≡ as_result (resolve user disk below b [])
namei_relative_example = namei_relative user disk none 3 below b [] idle b-Component tt refl

namei_balanced_example :
    ((namei user disk none none (slash ∷ a ++ slash ∷ b) idle).0 ≢ out_of_fuel)
    × ((k : ℕ)
        → idle k ≤ 254
        → (namei user disk none none (slash ∷ a ++ slash ∷ b) idle).1 k
          ≡ idle k + holds (namei user disk none none (slash ∷ a ++ slash ∷ b) idle).0 k)
namei_balanced_example = namei_balanced user disk none none (slash ∷ a ++ slash ∷ b) idle

file_found : (namei user disk none none (slash ∷ a ++ slash ∷ b) idle).0 ≡ found 4
unfolding namei start walk component read_name skip_slashes find name_eq padded permission same_bits
    class_shift
file_found = refl

-- Two slashes before the first name: the name that is read first is empty, and is not found.
double_slash : (namei user disk none none (slash ∷ slash ∷ a) idle).0 ≡ missing
unfolding namei start walk component read_name skip_slashes find name_eq padded permission same_bits
    class_shift
double_slash = refl

-- A component of 16 characters is read as one of 15 and one of 1.
long_component :
    component (97 ∷ 97 ∷ 97 ∷ 97 ∷ 97 ∷ 97 ∷ 97 ∷ 97 ∷ 97 ∷ 97 ∷ 97 ∷ 97 ∷ 97 ∷ 97 ∷ 97 ∷ 98 ∷ [])
    ≡ (97 ∷ 97 ∷ 97 ∷ 97 ∷ 97 ∷ 97 ∷ 97 ∷ 97 ∷ 97 ∷ 97 ∷ 97 ∷ 97 ∷ 97 ∷ 97 ∷ 97 ∷ [], b)
unfolding component read_name skip_slashes
long_component = refl
