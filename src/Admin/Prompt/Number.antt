-- ===== src/Admin/Prompt/Number.antt =====
-- The lines `hrs N` and `hrt N`, from the text to the setting.
use octopuslb.Base.{
  ℕ, ◌≤◌, ◌<◌, ◌^◌, ◌≡◌, ◌⊎◌, inl, inr, refl, ap, ◌∙◌, Bool, true, false, List, [], ◌∷◌, ◌++◌,
  arith, length, length-append, leb, pos, ℤ, if◌then◌else◌, if_split,
}
use octopuslb.Balancer.{Settings}
use octopuslb.Text.{Number, strtol, codes, starts_with, to_int}
use octopuslb.Text.Decimal.{decimal, strtol-decimal}
use octopuslb.Config.{Library}
use octopuslb.Admin.Console.{
  Errno, clear, erange, other, Console, Round, accept, decline, on_settings, with_errno, writable,
}
use octopuslb.Admin.Settings.{cmd_hrs, cmd_hrt, cmd_number, errno_of, is_bad, is_percentage}
use octopuslb.Admin.Prompt.{
  split_words, is_newline, read_line, run_words, commands, run_command, with_value,
}
use octopuslb.Admin.Prompt.Line.{number_line, split_words-join, Solid, digits-Solid, length-digits}

module _ (test : ℤ → Bool) (assign : ℤ → Settings → Settings) (value : List ℕ) (n : ℕ) (c : Console)
    (read : strtol 10 value ≡ record { value = pos n; found = true; erange = false })
    (free : c.readonly ≡ false) where
  -- The command, once the number is read.
  abbrev stored : Number → Round
  stored m =
      let c' = with_errno (errno_of m c.errno) c in
      writable c (
        if is_bad (errno_of m c.errno) m.value
        then decline c'
        else if test m.value
        then accept (on_settings (assign m.value) c')
        else decline c')

  number_kept :
      is_bad c.errno (pos n) ≡ false
      → test (pos n) ≡ true
      → cmd_number test assign value c ≡ accept (on_settings (assign (pos n)) c)
  unfolding cmd_number
  number_kept fine ok =
      let Ends = λ (r : Round). r ≡ accept (on_settings (assign (pos n)) c) in
      ap stored read
      ∙ if_split Ends c.readonly _ _ (λ y. absurd (cc))
          (λ _.
            if_split Ends (is_bad c.errno (pos n)) _ _ (λ y. absurd (cc))
              (λ _. if_split Ends (test (pos n)) _ _ (λ _. refl) (λ y. absurd (cc))))

  number_refused : test (pos n) ≡ false → cmd_number test assign value c ≡ decline c
  unfolding cmd_number
  number_refused bad =
      let Ends = λ (r : Round). r ≡ decline c in
      ap stored read
      ∙ if_split Ends c.readonly _ _ (λ y. refl)
          (λ _.
            if_split Ends (is_bad c.errno (pos n)) _ _ (λ _. refl)
              (λ _. if_split Ends (test (pos n)) _ _ (λ y. absurd (cc)) (λ _. refl)))

line_words :
    (word : List ℕ) (n : ℕ)
    → Solid word
    → 0 < length word
    → split_words 5 (number_line word n) ≡ word ∷ (decimal n ++ 10 ∷ []) ∷ []
line_words word n h long = split_words-join 5 (word ∷ (decimal n ++ 10 ∷ []) ∷ []) (
  h,
  long,
  (digits-Solid 19 n (10 ∷ []) (refl, tt), omega (arith, length-append (decimal n) (10 ∷ [])), tt),
)

length-number_line :
    (word : List ℕ) (n : ℕ) → length word < 50 → leb 127 (length (number_line word n)) ≡ false
length-number_line word n h =
    let a = length-append word (32 ∷ (decimal n ++ 10 ∷ [])) in
    let b = length-append (decimal n) (10 ∷ []) in ground (arith, a, b, h, length-digits 19 n)

-- A line of the prompt that is not too long.
read_line_words :
    (lib : Library) (input word : List ℕ) (args : List (List ℕ)) (c : Console)
    → leb 127 (length input) ≡ false
    → split_words 5 input ≡ word ∷ args
    → is_newline word ≡ false
    → read_line lib true input c ≡ run_command (commands lib) word args c
unfolding read_line run_words
read_line_words lib input word args c short found named = rw (short, found, named) refl

is_bad-pos : (e : Errno) (n : ℕ) → n ≤ 100 → (e ≡ clear) ⊎ (0 < n) → is_bad e (pos n) ≡ false
is_bad-pos clear n small h = refl
is_bad-pos erange n small (inl e) = absurd (cc)
is_bad-pos erange n small (inr h) = ground arith
is_bad-pos other n small (inl e) = absurd (cc)
is_bad-pos other n small (inr h) = ground arith

-- A command of one word that stores a percentage.
module _ (word : List ℕ) (assign : ℤ → Settings → Settings) (h : Solid word)
    (long : 0 < length word) (short : length word < 50) (named : is_newline word ≡ false)
    (lib : Library)
    (runs : (args : List (List ℕ)) (d : Console)
      → run_command (commands lib) word args d
        ≡ with_value (cmd_number is_percentage assign) args d)
    (n : ℕ) (c : Console) (free : c.readonly ≡ false) (fits : n < 2 ^ 63) where
  line_runs :
      read_line lib true (number_line word n) c
      ≡ cmd_number is_percentage assign (decimal n ++ 10 ∷ []) c
  line_runs =
      read_line_words lib (number_line word n) word ((decimal n ++ 10 ∷ []) ∷ []) c
        (length-number_line word n short) (line_words word n h long) named
      ∙ runs ((decimal n ++ 10 ∷ []) ∷ []) c

  line_stores :
      n ≤ 100
      → (c.errno ≡ clear) ⊎ (0 < n)
      → read_line lib true (number_line word n) c ≡ accept (on_settings (assign (pos n)) c)
  line_stores small fine =
      line_runs
      ∙ number_kept is_percentage assign (decimal n ++ 10 ∷ []) n c
          (strtol-decimal n (10 ∷ []) fits refl) free (is_bad-pos c.errno n small fine)
          (ground arith)

  line_refuses : 100 < n → read_line lib true (number_line word n) c ≡ decline c
  line_refuses large =
      line_runs
      ∙ number_refused is_percentage assign (decimal n ++ 10 ∷ []) n c
          (strtol-decimal n (10 ∷ []) fits refl) free (ground arith)

to_int_small : (n : ℕ) → n ≤ 100 → to_int (pos n) ≡ pos n
to_int_small n h = ground arith

hrs_runs :
    (lib : Library) (args : List (List ℕ)) (c : Console)
    → run_command (commands lib) (codes "hrs") args c ≡ with_value cmd_hrs args c
unfolding run_command commands starts_with
hrs_runs lib args c = refl

hrt_runs :
    (lib : Library) (args : List (List ℕ)) (c : Console)
    → run_command (commands lib) (codes "hrt") args c ≡ with_value cmd_hrt args c
unfolding run_command commands starts_with
hrt_runs lib args c = refl

abbrev set_size : ℤ → Settings → Settings
set_size v s = record s { hash_rebalance_size = to_int v }

abbrev set_threshold : ℤ → Settings → Settings
set_threshold v s = record s { hash_rebalance_threshold = to_int v }

-- An admin who may write, on a server that is alive, types `hrs` or `hrt`, a number below 2 ^ 63 in
-- decimal and the end of the line. Up to 100, and if `errno` is 0 or the number is not, the number
-- becomes the size or the threshold of rebalancing and nothing else of the balancer changes; above
-- 100 the line is refused and changes nothing but the status.
pub percentage_line_lem :
    (lib : Library) (n : ℕ) (c : Console)
    → c.readonly ≡ false
    → n < 2 ^ 63
    → (n ≤ 100
        → (c.errno ≡ clear) ⊎ (0 < n)
        → (read_line lib true (number_line (codes "hrs") n) c
            ≡ accept (on_settings (λ s. record s { hash_rebalance_size = pos n }) c))
          × (read_line lib true (number_line (codes "hrt") n) c
              ≡ accept (on_settings (λ s. record s { hash_rebalance_threshold = pos n }) c)))
      × (100 < n
          → (read_line lib true (number_line (codes "hrs") n) c ≡ decline c)
            × (read_line lib true (number_line (codes "hrt") n) c ≡ decline c))
unfolding cmd_hrs cmd_hrt
percentage_line_lem lib n c free fits =
    let solid : Solid (codes "hrs") × Solid (codes "hrt") =
      ((refl, (refl, (refl, tt))), (refl, (refl, (refl, tt)))) in
    (
      λ small fine. (
        line_stores (codes "hrs") set_size solid.0 (omega arith) (omega arith) refl lib
              (hrs_runs lib) n c free fits small fine
            ∙ ap (λ z. accept (on_settings (λ s. record s { hash_rebalance_size = z }) c))
                (to_int_small n small),
        line_stores (codes "hrt") set_threshold solid.1 (omega arith) (omega arith) refl lib
              (hrt_runs lib) n c free fits small fine
            ∙ ap (λ z. accept (on_settings (λ s. record s { hash_rebalance_threshold = z }) c))
                (to_int_small n small),
      ),
      λ large. (
        line_refuses (codes "hrs") set_size solid.0 (omega arith) (omega arith) refl lib
            (hrs_runs lib) n c free fits large,
        line_refuses (codes "hrt") set_threshold solid.1 (omega arith) (omega arith) refl lib
            (hrt_runs lib) n c free fits large,
      ),
    )
