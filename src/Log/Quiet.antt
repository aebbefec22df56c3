-- ===== src/Log/Quiet.antt =====
-- Which messages of a run of src/logging.c are written.
use octopuslb.Base.{
  ℕ, suc, ◌+◌, ◌≤◌, ◌≡◌, refl, sym, ap, ◌∙◌, Bool, true, false, List, [], ◌∷◌, ◌++◌, arith, some,
  if◌then◌else◌, if_split, Bool-cases, inl, inr, ◌&&◌,
}
use octopuslb.Log.{
  Journal, Deed, std_lines, Message, write_std, Entry, message, monitor_round, write_entries,
}

-- With the flag set or not: the messages that are no rejections, and of the rejections the first one
-- since the last round.
pub audible : Bool → List Entry → List Message
audible flag [] = []
audible flag (message m ∷ es) =
    let same = audible flag es in
    let quiet = audible true es in if m.reject then if flag then same else m ∷ quiet else m ∷ same
audible flag (monitor_round ∷ es) = audible false es

abbrev pub lines_of : List Message → Journal → List Deed
lines_of [] j = []
lines_of (m ∷ ms) j = std_lines m.loud m.text (some j) ++ lines_of ms j

abbrev pub rejections : List Message → ℕ
rejections [] = 0
rejections (m ∷ ms) = if m.reject then suc (rejections ms) else rejections ms

abbrev pub round_count : List Entry → ℕ
round_count [] = 0
round_count (message m ∷ es) = round_count es
round_count (monitor_round ∷ es) = suc (round_count es)

-- The lines of a message do not depend on the flag.
lines_of-flag :
    (ms : List Message) (j : Journal) (flag : Bool)
    → lines_of ms (record j { suppress = flag }) ≡ lines_of ms j
unfolding std_lines
lines_of-flag [] j flag = refl
lines_of-flag (m ∷ ms) j flag =
    ap (λ more. std_lines m.loud m.text (some j) ++ more) (lines_of-flag ms j flag)

module _ (m : Message) (es : List Entry) (j : Journal) where
  silent :
      m.reject ≡ true
      → j.suppress ≡ true
      → (write_entries (message m ∷ es) j).0 ≡ (write_entries es j).0
  unfolding write_entries write_std
  silent r s =
      if_split
        (λ (w : List Deed × Journal). w.0 ++ (write_entries es w.1).0 ≡ (write_entries es j).0)
        (m.reject && j.suppress) _ _ (λ _. refl) (λ out. absurd (ground (arith, r, s, out)))

  -- A message that is written, and the flag it leaves.
  heard :
      (flag : Bool)
      → (m.reject && j.suppress) ≡ false
      → (if m.reject then true else j.suppress) ≡ flag
      → (write_entries (message m ∷ es) j).0
        ≡ std_lines m.loud m.text (some j) ++ (write_entries es (record j { suppress = flag })).0
  unfolding write_entries write_std
  heard flag out f =
      if_split
        (λ (w : List Deed × Journal).
          w.0 ++ (write_entries es w.1).0
          ≡ std_lines m.loud m.text (some j) ++ (write_entries es (record j { suppress = flag })).0)
        (m.reject && j.suppress) _ _ (λ kept. absurd (cc))
        (λ _.
          ap
            (λ k.
              std_lines m.loud m.text (some j) ++ (write_entries es (record j { suppress = k })).0)
            f)

  audible-heard :
      (m.reject && j.suppress) ≡ false
      → audible j.suppress (message m ∷ es) ≡ m ∷ audible (if m.reject then true else j.suppress) es
  unfolding audible
  audible-heard out = ground (arith, out)

  audible-silent :
      m.reject ≡ true
      → j.suppress ≡ true
      → audible j.suppress (message m ∷ es) ≡ audible j.suppress es
  unfolding audible
  audible-silent r s = ground (arith, r, s)

entries_lines :
    (es : List Entry) (j : Journal) → (write_entries es j).0 ≡ lines_of (audible j.suppress es) j
unfolding write_entries audible
entries_lines [] j = refl
entries_lines (message m ∷ es) j = elim (Bool-cases (m.reject && j.suppress)) [
  | inl kept ↦
      let r : m.reject ≡ true = ground (arith, kept) in
      let s : j.suppress ≡ true = ground (arith, kept) in
      silent m es j r s
      ∙ entries_lines es j
      ∙ ap (λ ms. lines_of ms j) (sym (audible-silent m es j r s))
  | inr out ↦
      let flag = if m.reject then true else j.suppress in
      heard m es j flag out refl
      ∙ ap (λ more. std_lines m.loud m.text (some j) ++ more)
          (entries_lines es (record j { suppress = flag }) ∙ lines_of-flag (audible flag es) j flag)
      ∙ ap (λ ms. lines_of ms j) (sym (audible-heard m es j out))
]
entries_lines (monitor_round ∷ es) j =
    entries_lines es (record j { suppress = false }) ∙ lines_of-flag (audible false es) j false

few_rejections :
    (flag : Bool) (es : List Entry)
    → rejections (audible flag es) ≤ (if flag then 0 else 1) + round_count es
unfolding audible
few_rejections flag [] = omega arith
few_rejections flag (message m ∷ es) =
    ground (arith, few_rejections flag es, few_rejections true es)
few_rejections flag (monitor_round ∷ es) = ground (arith, few_rejections false es)

-- What the server writes over any run of messages that are not fatal is the lines of the audible
-- messages, in order: all that tell of no rejected connection, and of the others the first one after
-- each round of the monitor. So there is at most one of them for each round and, if the flag was not
-- set, one more.
pub write_entries_lem :
    (es : List Entry) (j : Journal)
    → ((write_entries es j).0 ≡ lines_of (audible j.suppress es) j)
      × (rejections (audible j.suppress es) ≤ (if j.suppress then 0 else 1) + round_count es)
write_entries_lem es j = (entries_lines es j, few_rejections j.suppress es)
