-- ===== src/Admin/Prompt/Ended.antt =====
-- What holds after a line of input, if each command sees to it.
use octopuslb.Base.{ℕ, ◌≡◌, Bool, true, false, List, [], ◌∷◌, if_split, leb, length, refl, pos}
use octopuslb.Text.{starts_with, codes}
use octopuslb.Config.{Library}
use octopuslb.Admin.{Admin}
use octopuslb.Admin.Console.{Console, Round, next, quit, scans, kills, crash}
use octopuslb.Admin.Prompt.{
  Command, with_value, with_server, with_server_value, with_address, commands, run_command,
  split_words, is_newline, run_words, input_limit, read_line, on_next, leave, run_once, run_lines,
}

-- After a round that goes on or exits, before a scan, before a kill, and at a crash.
abbrev pub Ended : (P S K : Admin → Type 0) → Type 0 → Round → Type 0
Ended P S K C (next c) = P c.admin
Ended P S K C (quit s c) = P c.admin
Ended P S K C (scans c) = S c.admin
Ended P S K C (kills c) = K c.admin
Ended P S K C crash = C

module _ (P S K : Admin → Type 0) (C : Type 0) where
  -- A command that sees to it.
  abbrev pub Obeys : Command → Type 0
  Obeys run = (args : List (List ℕ)) (c : Console) → P c.admin → Ended P S K C (run args c)

  -- A function of the words that sees to it.
  abbrev pub Fit : (Console → Round) → Type 0
  Fit f = (c : Console) → P c.admin → Ended P S K C (f c)

  pub with_value-Obeys :
      (f : List ℕ → Console → Round) → ((v : List ℕ) → Fit (f v)) → Obeys (with_value f)
  with_value-Obeys f k [] c p = p
  with_value-Obeys f k (v ∷ []) c p = k v c p
  with_value-Obeys f k (_ ∷ _ ∷ _) c p = p

  pub with_server-Obeys :
      (f : (type id : List ℕ) → Console → Round)
      → ((type id : List ℕ) → Fit (f type id))
      → Obeys (with_server f)
  with_server-Obeys f k [] c p = p
  with_server-Obeys f k (id ∷ []) c p = k (codes "m") id c p
  with_server-Obeys f k (type ∷ id ∷ []) c p = k type id c p
  with_server-Obeys f k (_ ∷ _ ∷ _ ∷ _) c p = p

  pub with_server_value-Obeys :
      (f : (type id value : List ℕ) → Console → Round)
      → ((type id value : List ℕ) → Fit (f type id value))
      → Obeys (with_server_value f)
  with_server_value-Obeys f k [] c p = p
  with_server_value-Obeys f k (_ ∷ []) c p = p
  with_server_value-Obeys f k (id ∷ v ∷ []) c p = k (codes "m") id v c p
  with_server_value-Obeys f k (type ∷ id ∷ v ∷ []) c p = k type id v c p
  with_server_value-Obeys f k (_ ∷ _ ∷ _ ∷ _ ∷ _) c p = p

  pub with_address-Obeys :
      (f : (type name ip port : List ℕ) → Console → Round)
      → ((type name ip port : List ℕ) → Fit (f type name ip port))
      → Obeys (with_address f)
  with_address-Obeys f k [] c p = p
  with_address-Obeys f k (_ ∷ []) c p = p
  with_address-Obeys f k (_ ∷ _ ∷ []) c p = p
  with_address-Obeys f k (name ∷ ip ∷ port ∷ []) c p = k (codes "m") name ip port c p
  with_address-Obeys f k (type ∷ name ∷ ip ∷ port ∷ []) c p = k type name ip port c p
  with_address-Obeys f k (_ ∷ _ ∷ _ ∷ _ ∷ _ ∷ _) c p = p

infixr 20 ◌&◌
pub data AllObey (P S K : Admin → Type 0) (C : Type 0) : List (List ℕ × Command) → Type 0 where
  all_obey : AllObey P S K C []
  ◌&◌ :
      {key : List ℕ} {run : Command} {more : List (List ℕ × Command)}
      → Obeys P S K C run
      → AllObey P S K C more
      → AllObey P S K C ((key, run) ∷ more)

-- No line without a word, unless a crash is allowed.
abbrev pub NoBlank : Type 0 → List (List ℕ) → Type 0
NoBlank C [] = Unit
NoBlank C (input ∷ more) = (split_words 5 input ≡ [] → C) × NoBlank C more

module _ (P S K : Admin → Type 0) (C : Type 0) where
  run_command-Ended :
      (table : List (List ℕ × Command)) (word : List ℕ)
      → AllObey P S K C table
      → Obeys P S K C (run_command table word)
  unfolding run_command
  run_command-Ended [] word all_obey args c p = p
  run_command-Ended ((key, run) ∷ more) word (k & ks) args c p =
      if_split (Ended P S K C) (starts_with word key) (run args c) (run_command more word args c)
        (λ e. k args c p) (λ e. run_command-Ended more word ks args c p)

  module _ (lib : Library) (obey : AllObey P S K C (commands lib)) where
    run_words-Ended :
        (line : List (List ℕ)) (c : Console)
        → (line ≡ [] → C)
        → P c.admin
        → Ended P S K C (run_words lib line c)
    unfolding run_words
    run_words-Ended [] c crashes p = crashes refl
    run_words-Ended (word ∷ args) c crashes p =
        if_split (Ended P S K C) (is_newline word) (next c) (run_command (commands lib) word args c)
          (λ e. p) (λ e. run_command-Ended (commands lib) word obey args c p)

    pub read_line-Ended :
        (alive : Bool) (input : List ℕ) (c : Console)
        → (split_words 5 input ≡ [] → C)
        → P c.admin
        → Ended P S K C (read_line lib alive input c)
    unfolding read_line
    read_line-Ended false input c crashes p = p
    read_line-Ended true input c crashes p =
        if_split (Ended P S K C) (leb input_limit (length input)) (quit (pos 1) c)
          (run_words lib (split_words 5 input) c) (λ e. p)
          (λ e. run_words-Ended (split_words 5 input) c crashes p)

    on_next-Ended :
        (k : Console → Round) (r : Round)
        → ((c : Console) → P c.admin → Ended P S K C (k c))
        → Ended P S K C r
        → Ended P S K C (on_next k r)
    on_next-Ended k (next c) go h = go c h
    on_next-Ended k (quit s c) go h = h
    on_next-Ended k (scans c) go h = h
    on_next-Ended k (kills c) go h = h
    on_next-Ended k crash go h = h

    pub run_once-Ended :
        (alive : Bool) (input : List ℕ) (c : Console)
        → (split_words 5 input ≡ [] → C)
        → P c.admin
        → Ended P S K C (run_once lib alive input c)
    unfolding run_once
    run_once-Ended alive input c crashes p =
        if_split (Ended P S K C) (leb input_limit (length input)) (quit (pos 1) c)
          (on_next leave (read_line lib alive input c)) (λ e. p)
          (λ e.
            on_next-Ended leave (read_line lib alive input c) (λ c' h. h)
              (read_line-Ended alive input c crashes p))

    pub run_lines-Ended :
        (lines : List (List ℕ)) (c : Console)
        → NoBlank C lines
        → P c.admin
        → Ended P S K C (run_lines lib lines c)
    unfolding run_lines
    run_lines-Ended [] c crashes p = p
    run_lines-Ended (input ∷ more) c (first, crashes) p =
        on_next-Ended (run_lines lib more) (read_line lib true input c)
          (λ c' h. run_lines-Ended more c' crashes h) (read_line-Ended true input c first p)
