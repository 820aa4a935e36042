-- ===== src/Service/Table.antt =====
-- A table that fills the database interface: a function from ids to rows, patched by a comparison of
-- versions. It shows that the laws of the interface can hold.
use ecs_dev_desktop.Common.{
  ℕ, Option, none, some, ◌≡◌, ◌≢◌, refl, inl, inr, ◌==◌, nat_eq, string_eq, if◌then◌else◌,
  Bool-cases, sym,
}
use ecs_dev_desktop.States.{WorkspaceId}
use ecs_dev_desktop.Workspace.{Workspace}
use ecs_dev_desktop.Service.World.{Loaded, Write, written, refused, Database}
use ecs_dev_desktop.Service.Purge.{Purging, reaped, already_gone}

abbrev pub Rows : Type 0
Rows = WorkspaceId → Option Loaded

abbrev pub put : Rows → WorkspaceId → Loaded → Rows
put t id row k = if k == id then some row else t k

abbrev pub patched_row : Rows → WorkspaceId → ℕ → (Loaded → Loaded) → Option Loaded → Write Rows
patched_row t id v f none = refused
patched_row t id v f (some row) = if row.version == v then written (put t id (f row)) else refused

pub written_row :
    (t t' : Rows) (id : WorkspaceId) (v : ℕ) (f : Loaded → Loaded) (o : Option Loaded)
    → patched_row t id v f o ≡ written t'
    → (old : Loaded) × (o ≡ some old) × (old.version ≡ v) × (t' ≡ put t id (f old))
written_row t t' id v f none h = absurd (cc)
written_row t t' id v f (some row) h = elim (Bool-cases (row.version == v)) [
  | inr b ↦ let no_write : ◌≡◌ {A = Write Rows} refused (written t') = rw b at h in absurd (cc)
  | inl b ↦
      let done : written (put t id (f row)) ≡ written t' = rw b at h in
      (row, refl, (nat_eq.test_iff row.version v).0 b, cc)
]

pub put-same : (t : Rows) (id : WorkspaceId) (row : Loaded) → put t id row id ≡ some row
put-same t id row = rw ((string_eq.test_iff id id).1 refl) refl

pub put-other :
    (t : Rows) (id other : WorkspaceId) (row : Loaded) → id ≢ other → put t id row other ≡ t other
put-other t id other row h = elim (Bool-cases (other == id)) [
  | inl b ↦ absurd (h (sym ((string_eq.test_iff other id).0 b)))
  | inr b ↦ rw b refl
]

abbrev pub rows : Database
rows = record {
  Table = Rows;
  get = λ t id. t id;
  patch = λ t id v f. patched_row t id v f (t id);
  patch_written = λ t t' id v f h.
      let (old, row, version, same) = written_row t t' id v f (t id) h in
      (old, row, version, rw same (put-same t id (f old)));
  patch_other = λ t t' id other v f h ne.
      let (old, row, version, same) = written_row t t' id v f (t id) h in
      rw same (put-other t id other (f old) ne);
}

abbrev pub without : Rows → WorkspaceId → Rows
without t id k = if k == id then none else t k

abbrev pub removed_row : Rows → WorkspaceId → ℕ → Option Loaded → Write Rows
removed_row t id v none = refused
removed_row t id v (some row) = if row.version == v then written (without t id) else refused

pub removed_row-written :
    (t t' : Rows) (id : WorkspaceId) (v : ℕ) (o : Option Loaded)
    → removed_row t id v o ≡ written t'
    → (old : Workspace) × (o ≡ some (record { ws = old; version = v })) × (t' ≡ without t id)
removed_row-written t t' id v none h = absurd (cc)
removed_row-written t t' id v (some row) h = elim (Bool-cases (row.version == v)) [
  | inr b ↦ let no_write : ◌≡◌ {A = Write Rows} refused (written t') = rw b at h in absurd (cc)
  | inl b ↦
      let done : written (without t id) ≡ written t' = rw b at h in
      let version : row.version ≡ v = (nat_eq.test_iff row.version v).0 b in
      (row.ws, rw version refl, cc)
]

pub without-same : (t : Rows) (id : WorkspaceId) → without t id id ≡ none
without-same t id = rw ((string_eq.test_iff id id).1 refl) refl

-- A storage that deletes every snapshot but the first, which is gone.
abbrev pub purging : Purging rows
purging = record {
  remove = λ t id v. removed_row t id v (t id);
  remove_written = λ t t' id v h.
      let (old, row, same) = removed_row-written t t' id v (t id) h in
      (old, row, rw same (without-same t id));
  reaps = λ n s. if s == "snap-1" then already_gone else reaped;
}
