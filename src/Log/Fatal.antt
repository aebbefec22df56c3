-- ===== src/Log/Fatal.antt =====
-- What a fatal message of src/logging.c leads to.
use octopuslb.Base.{
  ℕ, ◌≡◌, ◌⊎◌, inl, inr, refl, sym, subst, ap, ◌∙◌, Bool, true, false, ◌&&◌, List, [], ◌∷◌, ◌++◌,
  append_assoc, arith, if◌then◌else◌, if_split, Bool-cases, Option-cases, ℤ, pos, negsuc, eq_ℤ,
  ltb_ℤ,
}
use octopuslb.Log.{Journal, Deed, removes_segment, terminates, waits_for, only_if}
use octopuslb.Log.Exit.{
  Written, goes_on, stops, crash, prefixed, and_then, Failures, close_master, mark_segment,
  unlink_file, wait_for_monitor, remove_shm, exit_master, exit_monitor, clean_exit, signal_handler,
  send_term, fatal_lines, write_fatal,
}

-- 0 or -1.
abbrev IsStatus : ℤ → Type 0
IsStatus s = (s ≡ pos 0) ⊎ (s ≡ negsuc 0)

-- The crash needs a segment and no log file.
abbrev MayCrash : Journal → Type 0
MayCrash j = (j.shm ≡ true) × (j.log_file ≡ false)

-- After the master's part of the exit.
abbrev Marked : Journal → Written → Type 0
Marked old (goes_on deeds j) = j.alive ≡ false
Marked old (stops deeds s j) = (j.alive ≡ false) × IsStatus s
Marked old crash = MayCrash old

prefixed-Marked :
    (old : Journal) (deeds : List Deed) (w : Written) → Marked old w → Marked old (prefixed deeds w)
prefixed-Marked old deeds (goes_on more j) h = h
prefixed-Marked old deeds (stops more s j) h = h
prefixed-Marked old deeds crash h = h

close_master-Marked : (j : Journal) → j.shm ≡ true → j.alive ≡ false → Marked j (close_master j)
unfolding close_master
close_master-Marked j shm dead = if_split (Marked j) j.log_file _ crash (λ e. dead) (λ e. (shm, e))

mark_segment-Marked :
    (f : Failures) (j : Journal) → j.shm ≡ true → j.alive ≡ false → Marked j (mark_segment f j)
unfolding mark_segment
mark_segment-Marked f j shm dead = elim (Option-cases f.memory) [
  | inr (text, e) ↦ rw e (dead, inr refl)
  | inl e ↦ elim (Option-cases f.segment) [
    | inr (text, e') ↦ rw (e, e') (dead, inr refl)
    | inl e' ↦
        rw (e, e')
          (prefixed-Marked j (removes_segment ∷ []) (close_master j)
            (close_master-Marked j shm dead))
  ]
]

remove_shm-Marked : (f : Failures) (j : Journal) → j.alive ≡ false → Marked j (remove_shm f j)
unfolding remove_shm
remove_shm-Marked f j dead =
    if_split (Marked j) j.shm (prefixed (unlink_file f j) (mark_segment f j)) _
      (λ shm.
        prefixed-Marked j (unlink_file f j) (mark_segment f j) (mark_segment-Marked f j shm dead))
      (λ e. dead)

exit_master-Marked : (f : Failures) (j : Journal) → Marked j (exit_master f j)
unfolding exit_master
exit_master-Marked f old =
    let j : Journal = record old { alive = false } in
    prefixed-Marked old (wait_for_monitor f old) (remove_shm f j)
      (weaken (remove_shm f j) (remove_shm-Marked f j refl))
  where
    weaken : (w : Written) → Marked (record old { alive = false }) w → Marked old w
    weaken (goes_on deeds j) h = h
    weaken (stops deeds s j) h = h
    weaken crash h = h

-- The process has ended: the deeds begin with `front`, the balancer is marked as dead or not, and the
-- status is 0 or -1.
pub Ends : List Deed → Bool → Journal → Written → Type 0
Ends front alive old (goes_on deeds j) = ⊥
Ends front alive old (stops deeds s j) =
    ((more : List Deed) × (deeds ≡ front ++ more)) × (j.alive ≡ alive) × IsStatus s
Ends front alive old crash = (alive ≡ false) × MayCrash old

prefixed-Ends :
    (front deeds : List Deed) (alive : Bool) (old : Journal) (w : Written)
    → Ends front alive old w
    → Ends (deeds ++ front) alive old (prefixed deeds w)
unfolding Ends
prefixed-Ends front deeds alive old (goes_on more j) h = h
prefixed-Ends front deeds alive old (stops ds s j) ((more, e), dead, status) =
    ((more, ap (λ t. deeds ++ t) e ∙ sym (append_assoc deeds front more)), dead, status)
prefixed-Ends front deeds alive old crash h = h

clean_exit-Ends :
    (own : ℤ) (f : Failures) (j : Journal)
    → eq_ℤ own j.master_pid ≡ true
    → Ends [] false j (clean_exit own f j)
unfolding clean_exit Ends
clean_exit-Ends own f j self =
    if_split
      (λ w. Ends [] false j (
        and_then w
          (λ j'. stops (if eq_ℤ own j'.monitor_pid then exit_monitor f j' else []) (pos 0) j')))
      (eq_ℤ own j.master_pid) (exit_master f j) (goes_on [] j)
      (λ _. go (exit_master f j) (exit_master-Marked f j)) (λ e. absurd (ground (arith, e, self)))
  where
    go :
        (w : Written)
        → Marked j w
        → Ends [] false j (
            and_then w
              (λ j'. stops (if eq_ℤ own j'.monitor_pid then exit_monitor f j' else []) (pos 0) j'))
    go (goes_on deeds j') h = ((_, refl), h, inl refl)
    go (stops deeds s j') (h, status) = ((_, refl), h, status)
    go crash h = (refl, h)

-- A signal to another process, or to none.
send_term_other :
    (own : ℤ) (f : Failures) (pid : ℤ) (j : Journal)
    → eq_ℤ own pid ≡ false
    → send_term own f pid j ≡ goes_on (only_if (ltb_ℤ (pos 0) pid) (terminates pid)) j
unfolding send_term
send_term_other own f pid j other = elim (Bool-cases (ltb_ℤ (pos 0) pid)) [
  | inl e ↦ rw (e, other) refl
  | inr e ↦ rw e refl
]

-- A process that sends the signal to the master is the master.
abbrev pub is_master : ℤ → Journal → Bool
is_master own j = ltb_ℤ (pos 0) j.master_pid && eq_ℤ own j.master_pid

abbrev give_up : Journal → Written
give_up j = stops (waits_for j.master_pid ∷ []) (negsuc 0) j

and_then-Ends :
    (deed : Deed) (j : Journal) (w : Written)
    → Ends [] false j w
    → Ends (deed ∷ []) false j (and_then (prefixed (deed ∷ []) w) give_up)
unfolding Ends
and_then-Ends deed j (goes_on deeds j') h = absurd h
and_then-Ends deed j (stops deeds s j') (_, dead, status) = ((deeds, refl), dead, status)
and_then-Ends deed j crash h = h

forget :
    (deed : Deed) (j : Journal) (w : Written)
    → Ends [] false j w
    → Ends [] false j (prefixed (deed ∷ []) w)
unfolding Ends
forget deed j (goes_on deeds j') h = absurd h
forget deed j (stops deeds s j') (_, dead, status) = ((_, refl), dead, status)
forget deed j crash h = h

master-Ends :
    (own : ℤ) (f : Failures) (j : Journal) (deed : Deed)
    → Ends
        (deed ∷ [])
        (if is_master own j then false else j.alive)
        j
        (and_then (prefixed (deed ∷ []) (send_term own f j.master_pid j)) give_up)
unfolding send_term signal_handler Ends
master-Ends own f j deed = elim (Bool-cases (ltb_ℤ (pos 0) j.master_pid)) [
  | inr e ↦ rw e ((_, refl), refl, inr refl)
  | inl e ↦ elim (Bool-cases (eq_ℤ own j.master_pid)) [
    | inr e' ↦ rw (e, e') ((_, refl), refl, inr refl)
    | inl e' ↦
        rw (e, e')
          (and_then-Ends deed j (prefixed (terminates j.master_pid ∷ []) (clean_exit own f j))
            (forget (terminates j.master_pid) j (clean_exit own f j) (clean_exit-Ends own f j e')))
  ]
]

abbrev pub front_of : (text : List ℕ) (j : Journal) → List Deed
front_of text j =
    fatal_lines text j
    ++ (only_if (ltb_ℤ (pos 0) j.monitor_pid) (terminates j.monitor_pid)
        ++ (waits_for j.monitor_pid ∷ []))

-- A fatal message in a process other than the monitor ends that process, whatever fails on the way:
-- after the lines of the message come the signal to the monitor, if it runs, and the wait for it. The
-- status is 0 or -1. If the process is the master it marks the balancer as dead; if not, the
-- balancer is left as it was. It crashes only as the master with a segment and no log file.
pub write_fatal-Ends :
    (own : ℤ) (f : Failures) (text : List ℕ) (j : Journal)
    → eq_ℤ own j.monitor_pid ≡ false
    → Ends
        (front_of text j)
        (if is_master own j then false else j.alive)
        j
        (write_fatal own f text j)
unfolding write_fatal
write_fatal-Ends own f text j other =
    let alive = if is_master own j then false else j.alive in
    let signal = only_if (ltb_ℤ (pos 0) j.monitor_pid) (terminates j.monitor_pid) in
    let rest = λ (j' : Journal).
      and_then (prefixed (waits_for j'.monitor_pid ∷ []) (send_term own f j'.master_pid j'))
        give_up in
    subst (λ w. Ends (front_of text j) alive j (prefixed (fatal_lines text j) (and_then w rest)))
      (sym (send_term_other own f j.monitor_pid j other))
      (prefixed-Ends (signal ++ waits_for j.monitor_pid ∷ []) (fatal_lines text j) alive j
        (prefixed signal (rest j))
        (prefixed-Ends (waits_for j.monitor_pid ∷ []) signal alive j (rest j)
          (master-Ends own f j (waits_for j.monitor_pid))))
