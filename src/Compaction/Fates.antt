-- ===== src/Compaction/Fates.antt =====
-- What becomes of every name of a directory in a step of a compaction.
use rusty_swift_merge.Base.{◌≡◌, ◌∙◌, none, List, [], ◌∷◌, ◌++◌, All}
use rusty_swift_merge.Bytes.{Bytes}
use rusty_swift_merge.Bloom.Sound.{Occurs, here, there}
use rusty_swift_merge.Directory.{Directory, find_file}

-- A name that is made, that is kept for removal, or that is free.
pub data Moved (after : Directory) (made consumed : List Bytes) (n : Bytes) : Type 0 where
  made_now : Occurs n made → Moved after made consumed n
  kept : Occurs n consumed → Moved after made consumed n
  free : find_file after n ≡ none → Moved after made consumed n

-- Or that has the file that it had before.
pub data Fate (before after : Directory) (made consumed : List Bytes) (n : Bytes) : Type 0 where
  moved : Moved after made consumed n → Fate before after made consumed n
  as_before : find_file after n ≡ find_file before n → Fate before after made consumed n

module _ {ℓ} {A : Type ℓ} where
  pub Occurs-append_left : {x : A} {xs : List A} (ys : List A) → Occurs x xs → Occurs x (xs ++ ys)
  Occurs-append_left ys (here {xs}) = here
  Occurs-append_left ys (there {x} {xs} o) = there (Occurs-append_left ys o)

  pub Occurs-append_right : {x : A} (xs : List A) {ys : List A} → Occurs x ys → Occurs x (xs ++ ys)
  Occurs-append_right [] o = o
  Occurs-append_right (x ∷ xs) o = there (Occurs-append_right xs o)

  pub All-Occurs_at {κ} : (P : A → Type κ) {x : A} {xs : List A} → Occurs x xs → All P xs → P x
  All-Occurs_at P (here {xs}) h = h.0
  All-Occurs_at P (there {x} {xs} o) h = All-Occurs_at P o h.1

pub Moved-later :
    {after : Directory} (made consumed : List Bytes) {made' consumed' : List Bytes} {n : Bytes}
    → Moved after made' consumed' n
    → Moved after (made ++ made') (consumed ++ consumed') n
Moved-later made consumed (made_now o) = made_now (Occurs-append_right made o)
Moved-later made consumed (kept o) = kept (Occurs-append_right consumed o)
Moved-later made consumed (free e) = free e

-- Two steps one after the other, on other names.
pub Moved-both :
    {middle after : Directory} (made consumed : List Bytes) {made' consumed' : List Bytes}
    {n : Bytes}
    → Moved middle made consumed n
    → Fate middle after made' consumed' n
    → Moved after (made ++ made') (consumed ++ consumed') n
Moved-both made consumed (made_now o) g = made_now (Occurs-append_left _ o)
Moved-both made consumed (kept o) g = kept (Occurs-append_left _ o)
Moved-both made consumed (free e) (moved m) = Moved-later made consumed m
Moved-both made consumed (free e) (as_before same) = free (same ∙ e)

pub Fate-both :
    {before middle after : Directory} (made consumed : List Bytes) {made' consumed' : List Bytes}
    {n : Bytes}
    → Fate before middle made consumed n
    → Fate middle after made' consumed' n
    → Fate before after (made ++ made') (consumed ++ consumed') n
Fate-both made consumed (moved m) g = moved (Moved-both made consumed m g)
Fate-both made consumed (as_before e) (moved m) = moved (Moved-later made consumed m)
Fate-both made consumed (as_before e) (as_before same) = as_before (same ∙ e)

-- A pass and those behind it, which use up the names that the pass made.
pub Moved-then :
    {middle after : Directory} (made consumed : List Bytes) {made' consumed' : List Bytes}
    {n : Bytes}
    → Moved middle made consumed n
    → (Occurs n made → Moved after made' consumed' n)
    → Fate middle after made' consumed' n
    → Moved after made' (consumed ++ consumed') n
Moved-then made consumed (made_now o) up g = Moved-later [] consumed (up o)
Moved-then made consumed (kept o) up g = kept (Occurs-append_left _ o)
Moved-then made consumed (free e) up (moved m) = Moved-later [] consumed m
Moved-then made consumed (free e) up (as_before same) = free (same ∙ e)

pub Fate-then :
    {before middle after : Directory} (made consumed : List Bytes) {made' consumed' : List Bytes}
    {n : Bytes}
    → Fate before middle made consumed n
    → (Occurs n made → Moved after made' consumed' n)
    → Fate middle after made' consumed' n
    → Fate before after made' (consumed ++ consumed') n
Fate-then made consumed (moved m) up g = moved (Moved-then made consumed m up g)
Fate-then made consumed (as_before e) up (moved m) = moved (Moved-later [] consumed m)
Fate-then made consumed (as_before e) up (as_before same) = as_before (same ∙ e)
