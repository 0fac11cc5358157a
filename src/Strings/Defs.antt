-- ===== src/Strings/Defs.antt =====
-- Memory as a function from addresses to bytes. Characters are their codes.
use linux.Base.{
  ℕ, zero, suc, ◌+◌, ◌-◌, ◌%◌, Bool, true, false, ◌&&◌, ◌||◌, Option, none, some, ltb, leb, ◌==◌,
  if◌then◌else◌, update,
}

abbrev pub Bytes : Type 0
Bytes = ℕ → ℕ

-- while (n--) *d++ = *s++
unfoldable pub memcpy : ℕ → ℕ → ℕ → Bytes → Bytes
memcpy zero d s m = m
memcpy (suc n) d s m = memcpy n (d + 1) (s + 1) (update m d (m s))

-- while (n--) *--d = *--s, from the ends of both blocks
unfoldable pub copy_back : ℕ → ℕ → ℕ → Bytes → Bytes
copy_back zero d s m = m
copy_back (suc n) d s m = copy_back n d s (update m (d + n) (m (s + n)))

unfoldable pub memmove : ℕ → ℕ → ℕ → Bytes → Bytes
unfolding memcpy copy_back
memmove d s n m = if ltb d s then memcpy n d s m else copy_back n d s m

unfoldable pub memset : ℕ → ℕ → ℕ → Bytes → Bytes
memset zero p c m = m
memset (suc n) p c m = memset n (p + 1) c (update m p (c % 256))

-- while (*s++) len++, on fuel
abbrev pub counted_on : Bool → Option ℕ → Option ℕ
counted_on true rest = some 0
counted_on false none = none
counted_on false (some n) = some (n + 1)

unfoldable pub strlen : ℕ → ℕ → Bytes → Option ℕ
strlen zero s m = none
strlen (suc fuel) s m = counted_on (m s == 0) (strlen fuel (s + 1) m)

-- for (; i < n; i++) dest[i] = 0
unfoldable pub pad : ℕ → ℕ → Bytes → Bytes
pad zero d m = m
pad (suc n) d m = pad n (d + 1) (update m d 0)

unfoldable pub strncpy : ℕ → ℕ → ℕ → Bytes → Bytes
unfolding pad
strncpy zero d s m = m
strncpy (suc n) d s m = elim (m s == 0) [
  | true ↦ pad (suc n) d m
  | false ↦ strncpy n (d + 1) (s + 1) (update m d (m s))
]

unfoldable pub isdigit : ℕ → Bool
isdigit c = leb 48 c && leb c 57

unfoldable pub isspace : ℕ → Bool
isspace c = c == 32 || c == 9 || c == 10 || c == 13

unfoldable pub isupper : ℕ → Bool
isupper c = leb 65 c && leb c 90

unfoldable pub islower : ℕ → Bool
islower c = leb 97 c && leb c 122

unfoldable pub isalpha : ℕ → Bool
isalpha c = leb 97 c && leb c 122 || leb 65 c && leb c 90

unfoldable pub isalnum : ℕ → Bool
unfolding isalpha isdigit
isalnum c = isalpha c || isdigit c

unfoldable pub tolower : ℕ → ℕ
unfolding isupper
tolower c = if isupper c then c + 32 else c

unfoldable pub toupper : ℕ → ℕ
unfolding islower
toupper c = if islower c then c - 32 else c
