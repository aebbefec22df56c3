-- ===== src/Admin/Scan/Outcome.antt =====
-- What a scan of src/admin.c leaves.
use octopuslb.Base.{
  ℕ, ◌<◌, arith, ◌≡◌, ◌⊎◌, inl, inr, refl, Bool, true, false, ◌||◌, ◌&&◌, none, some, List, ltb,
  if◌then◌else◌, if_split, Option-cases, pos, negsuc, length,
}
use octopuslb.Admin.{Admin}
use octopuslb.Admin.Console.{Errno, Console, Round, next, quit, scans, kills, crash, accept}
use octopuslb.Admin.Scan.{
  Segment, granted, denied, missing, Attached, Instance, attach_shm, connect_to_shm, max_balancers,
  chosen, cmd_scan_for_instances,
}

-- What `shmat` gave for the file is the admin's balancer; it may serve if it is alive and of the
-- admin's version, unless the versions are ignored.
pub AttachedTo : Bool → Instance → (serves : Bool) → Admin → Type 0
AttachedTo ignore_version file serves a =
    (m : Attached) × (file.attach a.readonly ≡ some m)
    × (a.balancer ≡ m.balancer)
    × (((m.same_version || ignore_version) && m.alive) ≡ serves)

-- Of an admin before and after a connection: connected, or else unchanged but for the read-only mode,
-- or attached to a balancer that may not serve. Read-only mode is only ever switched on, for a
-- segment that may be read alone.
pub Connects : Bool → Instance → Admin → Bool × Admin → Type 0
Connects ignore_version file a (ok, a') =
    (ok ≡ true → AttachedTo ignore_version file true a')
    × (ok ≡ false → (a'.balancer ≡ a.balancer) ⊎ AttachedTo ignore_version file false a')
    × ((a'.readonly ≡ a.readonly) ⊎ ((a'.readonly ≡ true) × (file.segment ≡ denied true)))
    × (a'.subject ≡ a.subject)
    × (a'.subject_count ≡ a.subject_count)

attach_shm-Connects :
    (ignore_version : Bool) (file : Instance) (a a' : Admin)
    → a'.balancer ≡ a.balancer
    → (a'.readonly ≡ a.readonly) ⊎ ((a'.readonly ≡ true) × (file.segment ≡ denied true))
    → a'.subject ≡ a.subject
    → a'.subject_count ≡ a.subject_count
    → Connects ignore_version file a (attach_shm ignore_version file a')
unfolding attach_shm Connects AttachedTo
attach_shm-Connects ignore_version file a a' same mode subjects count =
    elim (Option-cases (file.attach a'.readonly)) [
      | inl e ↦ rw (attach_shm, e) ((λ ok. absurd (cc)), (λ z. inl same), mode, subjects, count)
      | inr (m, e) ↦
          rw (attach_shm, e)
            ((λ ok. (m, e, refl, ok)), (λ bad. inr (m, e, refl, bad)), mode, subjects, count)
    ]

connect_to_shm-Connects :
    (ignore_version : Bool) (file : Instance) (a : Admin)
    → Connects ignore_version file a (connect_to_shm ignore_version file a)
unfolding connect_to_shm Connects
connect_to_shm-Connects ignore_version file a =
    if_split (Connects ignore_version file a) (file.is_there && file.has_key) _ (false, a)
      (λ e. go file.segment refl) (λ e. unchanged)
  where
    unchanged : Connects ignore_version file a (false, a)
    unchanged = ((λ ok. absurd (cc)), (λ z. inl refl), inl refl, refl, refl)

    go :
        (s : Segment)
        → file.segment ≡ s
        → Connects ignore_version file a (elim s as (λ z. Bool × Admin) [
          | granted ↦ attach_shm ignore_version file a
          | denied readable ↦
              if readable
              then attach_shm ignore_version file (record a { readonly = true })
              else (false, a)
          | missing ↦ (false, a)
        ])
    go granted e = attach_shm-Connects ignore_version file a a refl (inl refl) refl refl
    go (denied true) e =
        attach_shm-Connects ignore_version file a (record a { readonly = true }) refl
          (inr (refl, e)) refl refl
    go (denied false) e = unchanged
    go missing e = unchanged

-- How a scan ends.
pub ScanEnds : Bool → List Instance → List ℕ → Console → Round → Type 0
ScanEnds ignore_version files input c (next c') =
    ((file : Instance) × (chosen files input ≡ some file)
      × Connects ignore_version file c.admin (true, c'.admin))
    × (c'.status ≡ pos 0)
ScanEnds ignore_version files input c (quit s c') =
    ((s ≡ pos 1) × (chosen files input ≡ none) × (c' ≡ c))
    ⊎ ((s ≡ negsuc 0)
        × ((file : Instance) × (chosen files input ≡ some file)
            × Connects ignore_version file c.admin (false, c'.admin)))
ScanEnds ignore_version files input c (scans c') = ⊥
ScanEnds ignore_version files input c (kills c') = ⊥
ScanEnds ignore_version files input c crash = max_balancers < length files

-- Whatever the system answers: a scan that returns leaves the admin attached to the chosen file's
-- balancer, which is alive and of the admin's version, unless the versions are ignored, and its
-- command returns 0. Otherwise the program exits: with 1 when no file is chosen, and nothing has
-- changed; or with -1, and then the admin has its old balancer or is attached to the chosen file's,
-- which is dead or of another version. A connection switches read-only mode on at most, for a
-- segment that may only be read, and leaves the subjects. With more than MAXBALANCERS files the
-- scan writes past the end of its list instead.
pub cmd_scan_for_instances-Ends :
    (ignore_version : Bool) (files : List Instance) (input : List ℕ) (errno : Errno) (c : Console)
    → ScanEnds ignore_version files input c
        (cmd_scan_for_instances ignore_version files input errno c)
unfolding cmd_scan_for_instances ScanEnds
cmd_scan_for_instances-Ends ignore_version files input errno c =
    if_split (ScanEnds ignore_version files input c) (ltb max_balancers (length files)) crash _
      (λ e. ground arith)
      (λ e. elim (Option-cases (chosen files input)) [
        | inl e ↦ rw e (inl (refl, e, refl))
        | inr (file, e) ↦ rw e (
            connected file (connect_to_shm ignore_version file c.admin) e
              (connect_to_shm-Connects ignore_version file c.admin))
      ])
  where
    connected :
        (file : Instance) (r : Bool × Admin)
        → chosen files input ≡ some file
        → Connects ignore_version file c.admin r
        → ScanEnds ignore_version files input c (
            if r.0
            then accept (record c { admin = r.1; errno = errno })
            else quit (negsuc 0) (record c { admin = r.1 }))
    connected file (true, a) e h = ((file, e, h), refl)
    connected file (false, a) e h = inr (refl, (file, e, h))
