-- ===== src/Xray/Geodata/Steps.antt =====
-- The entries of a disk under a write, and the names and tests of internal/xray/geodata.go.
use rw_node_go.Common.{
  ◌≡◌, refl, sym, ap, ◌∙◌, Bool, true, false, Option, none, some, String, ◌==◌, eq_iff, List, [],
  ◌∷◌, ok, is_empty, not, Bool-cases, inl, inr, ◌⊎◌,
}
use rw_node_go.Http.Body.{Bytes}
use rw_node_go.Xray.Geodata.{
  Disk, Entry, absent, regular, irregular, hidden, write_at, first_free, is_absent, unless, removed,
  file_exists_non_empty, stat,
}

-- A regular file that has content.
abbrev pub non_empty : Entry → Bool
non_empty (regular content) = not (is_empty content)
non_empty _ = false

pub write_at-other :
    (path other : String) (e : Entry) (d : Disk)
    → (path == other) ≡ false
    → write_at path e d other ≡ d other
unfolding write_at
write_at-other path other e d h = rw h refl

pub absent_of : (e : Entry) → is_absent e ≡ true → e ≡ absent
absent_of absent h = refl
absent_of (regular content) h = cc
absent_of irregular h = cc
absent_of hidden h = cc

pub write_at-hit :
    (path q : String) (e : Entry) (d : Disk) → (path == q) ≡ true → write_at path e d q ≡ e
unfolding write_at
write_at-hit path q e d h = rw h refl

-- The name that CreateTemp takes is free.
pub first_free-absent :
    (d : Disk) (names : List String) (tmp : String) → first_free d names ≡ some tmp → d tmp ≡ absent
unfolding first_free
first_free-absent d [] tmp h = cc
first_free-absent d (name ∷ names) tmp h = elim (Bool-cases (is_absent (d name))) [
  | inl e ↦
      let taken : some name ≡ some tmp = (simp e at h) in
      let same : name ≡ tmp = cc in ap d (sym same) ∙ absent_of (d name) e
  | inr e ↦ first_free-absent d names tmp (simp e at h)
]

-- An entry that stays, or that becomes a regular file at the path that is prepared.
abbrev pub After : String → String → Entry → Entry → Type 0
After path q e e' = (e' ≡ e) ⊎ ((path == q) ≡ true) × (content : Bytes) × (e' ≡ regular content)

-- A free name is not that of an entry.
pub free_apart :
    (d : Disk) (tmp q : String) → d tmp ≡ absent → is_absent (d q) ≡ false → (tmp == q) ≡ false
free_apart d tmp q free there = elim (Bool-cases (tmp == q)) [
  | inl e ↦ cc (sym there ∙ ap is_absent (ap d (sym ((eq_iff tmp q).0 e)) ∙ free))
  | inr e ↦ e
]

pub apart : (path q : String) {e e' : Entry} → (path == q) ≡ false → After path q e e' → e' ≡ e
apart path q h (inl same) = same
apart path q h (inr (hit, content, same)) = cc

pub stays :
    (path q : String) (e e' : Entry)
    → is_absent e ≡ false
    → After path q e e'
    → is_absent e' ≡ false
stays path q e e' there (inl same) = rw same there
stays path q e e' there (inr (hit, content, same)) = rw same refl

pub non_empty-there : (e : Entry) → non_empty e ≡ true → is_absent e ≡ false
non_empty-there (regular content) h = refl
non_empty-there absent h = cc
non_empty-there irregular h = cc
non_empty-there hidden h = cc

pub stat_of : (e : Entry) → non_empty e ≡ true → stat e ≡ ok true
stat_of (regular content) h = ap ok h
stat_of absent h = cc
stat_of irregular h = cc
stat_of hidden h = cc

pub exists_of :
    (d : Disk) (path : String) → non_empty (d path) ≡ true → file_exists_non_empty d path ≡ ok true
unfolding file_exists_non_empty
exists_of d path h = stat_of (d path) h

pub unless-all :
    (P : Disk → Type 0) (e : Option String) (d : Disk) (rest : Option String × Disk)
    → P d
    → P rest.1
    → P (unless e d rest).1
unless-all P (some e) d rest h k = h
unless-all P none d rest h k = k

pub removed-same :
    (e : Option String) (tmp q : String) (r : Option String × Disk)
    → (tmp == q) ≡ false
    → (removed e tmp r).1 q ≡ r.1 q
removed-same (some e) tmp q (o, d) h = refl
removed-same none tmp q (o, d) h = write_at-other tmp q absent d h
