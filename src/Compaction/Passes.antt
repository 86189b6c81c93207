-- ===== src/Compaction/Passes.antt =====
-- The passes over a unit, down to one file.
use rusty_swift_merge.Base.{
  ℕ, zero, suc, ◌+◌, ◌*◌, ◌≤◌, ◌<◌, ◌≡◌, ◌≢◌, inl, inr, refl, sym, subst, ap, ◌∙◌, arith, false,
  Option, none, some, List, [], ◌∷◌, ◌++◌, append-nil, map, length, All, All-append,
}
use rusty_swift_merge.Base.Outcome.{Outcome, ok}
use rusty_swift_merge.Base.Action.{◌>>=◌, respond}
use rusty_swift_merge.Bytes.{Bytes}
use rusty_swift_merge.BTreeMap.{BTreeMap, get}
use rusty_swift_merge.Directory.{Directory, same}
use rusty_swift_merge.Bloom.Sound.{Occurs, here, there}
use rusty_swift_merge.Compaction.Fates.{Moved, Fate, Moved-then, Fate-then}
use rusty_swift_merge.Compaction.{CompactionError}
use rusty_swift_merge.Compaction.Merge.{live, or_else, live_again}
use rusty_swift_merge.Compaction.Files.{Machine, Pass, join_pairs, passes, output_name}
use rusty_swift_merge.Compaction.Names.{
  ending, ain, tmp, Kind, Kind-not_output, ending_ne, ending_of_output, output_not_drained,
}
use rusty_swift_merge.Compaction.Pairs.{Source, Reads, Framed, DrainedOrOutput}
use rusty_swift_merge.Compaction.FirstLive.{first_live, Apart}
use rusty_swift_merge.Compaction.Rounds.{
  Place, Output, StartsJoined, Inputs, Passed, Place-Kind, join_pairs-Passed,
}

or_else-none : (o : Option Bytes) → or_else o none ≡ o
or_else-none none = refl
or_else-none (some v) = refl

-- Names that a unit leaves alone: other ones, that are neither intermediate nor drained files.
abbrev pub Spared : List Source → Bytes → Type 0
Spared sources n = All (λ s. same s.name n ≡ false) sources × (ending n ≢ tmp)

abbrev pub names_of : List Source → List Bytes
names_of sources = map (λ s. s.name) sources

pub length-names_of : (sources : List Source) → length (names_of sources) ≡ length sources
length-names_of [] = refl
length-names_of (s ∷ sources) = ap (λ (n : ℕ). suc n) (length-names_of sources)

module _ (machine : Machine) (id : ℕ) where
  -- What the passes leave of two sources or more.
  pub record Finished (pass : ℕ) (dir : Directory) (sources : List Source)
      (r : Outcome CompactionError Pass × Directory) : Type 0 where
    pub last : Source
    pub consumed : List Bytes
    pub fine : r.0 ≡ ok (last.name ∷ [], consumed)
    pub at : ℕ
    pub later : pass ≤ at
    pub output : Output machine id at r.1 last
    pub answers : (q : Bytes) → get last.entries q ≡ first_live sources q
    pub unconsumed : All (λ c. same c last.name ≡ false) consumed
    pub spared :
        (n : Bytes) → Spared sources n → ending n ≢ ain → All (λ c. same c n ≡ false) consumed
    pub frame : Framed (Spared sources) dir r.1
    pub fate : (n : Bytes) → Fate dir r.1 (last.name ∷ []) consumed n
    pub moved : All (λ s. Moved r.1 (last.name ∷ []) consumed s.name) sources

  consumed-apart :
      (pass at j : ℕ) (consumed : List Bytes)
      → pass ≤ at
      → All (DrainedOrOutput id pass) consumed
      → All (λ c. same c (output_name id at j) ≡ false) consumed
  consumed-apart pass at j [] h k = tt
  consumed-apart pass at j (c ∷ consumed) h k =
      (differs k.0, consumed-apart pass at j consumed h k.1)
    where
      differs : DrainedOrOutput id pass c → same c (output_name id at j) ≡ false
      differs (inl drained) =
          ending_ne c (output_name id at j) (λ e. output_not_drained id at j (sym e ∙ drained))
      differs (inr (p, i, l, e)) = Kind-not_output id at j c (inr (p, i, omega arith, e))

  consumed_spared :
      (pass : ℕ) (n : Bytes) (consumed : List Bytes)
      → ending n ≢ tmp
      → ending n ≢ ain
      → All (DrainedOrOutput id pass) consumed
      → All (λ c. same c n ≡ false) consumed
  consumed_spared pass n [] t a k = tt
  consumed_spared pass n (c ∷ consumed) t a k =
      (differs k.0, consumed_spared pass n consumed t a k.1)
    where
      differs : DrainedOrOutput id pass c → same c n ≡ false
      differs (inl drained) = ending_ne c n (λ e. a (sym e ∙ drained))
      differs (inr (p, i, l, e)) =
          ending_ne c n (λ f. t (sym f ∙ ap (λ (x : Bytes). ending x) e ∙ ending_of_output id p i))

  pub output_spared :
      (pass j : ℕ) (n : Bytes) → ending n ≢ tmp → same (output_name id pass j) n ≡ false
  output_spared pass j n t =
      ending_ne (output_name id pass j) n (λ e. t (sym e ∙ ending_of_output id pass j))

  next_Inputs :
      (pass : ℕ) (dir : Directory) (next : List Source)
      → All (Place machine id pass 0) next
      → All (Reads dir) next
      → Inputs machine id (pass + 1) dir next
  next_Inputs pass dir [] p r = tt
  next_Inputs pass dir (s ∷ next) p r = (
    (subst (λ (n : ℕ). Kind id n s.name) (omega arith) (Place-Kind machine id pass 0 s p.0), r.0),
    next_Inputs pass dir next p.1 r.1,
  )

  passes_one :
      (fuel pass : ℕ) (name : Bytes) (dir : Directory)
      → passes fuel machine id pass (name ∷ []) dir ≡ (ok (name ∷ [], []), dir)
  unfolding passes
  passes_one zero pass name dir = refl
  passes_one (suc fuel) pass name dir = refl

  Moved-at :
      (after : Directory) (made consumed : List Bytes) (sources : List Source) (n : Bytes)
      → All (λ s. Moved after made consumed s.name) sources
      → Occurs n (names_of sources)
      → Moved after made consumed n
  Moved-at after made consumed [] n h o = elim o [ ]
  Moved-at after made consumed (s ∷ sources) n h here = h.0
  Moved-at after made consumed (s ∷ sources) n h (there {x} {xs} o) =
      Moved-at after made consumed sources n h.1 o

  Moved-through :
      (middle after : Directory) (made consumed made' consumed' : List Bytes)
      (sources : List Source)
      → All (λ s. Moved middle made consumed s.name) sources
      → ((n : Bytes) → Occurs n made → Moved after made' consumed' n)
      → ((n : Bytes) → Fate middle after made' consumed' n)
      → All (λ s. Moved after made' (consumed ++ consumed') s.name) sources
  Moved-through middle after made consumed made' consumed' [] h up g = tt
  Moved-through middle after made consumed made' consumed' (s ∷ sources) h up g = (
    Moved-then made consumed h.0 (λ o. up s.name o) (g s.name),
    Moved-through middle after made consumed made' consumed' sources h.1 up g,
  )

  -- The passes behind a pass, where they are known to finish.
  after_pass :
      (fuel pass : ℕ) (dir : Directory) (l r : Source) (sources : List Source)
      {result : Outcome CompactionError Pass × Directory}
      (m : Passed machine id pass 0 dir (l ∷ r ∷ sources) result) (next : List Source)
      → length sources < suc fuel
      → m.next ≡ next
      → ((l' r' : Source) (rest : List Source)
          → length rest < fuel
          → Inputs machine id (pass + 1) result.1 (l' ∷ r' ∷ rest)
          → Apart (l' ∷ r' ∷ rest)
          → Finished
              (pass + 1)
              result.1
              (l' ∷ r' ∷ rest)
              (passes fuel machine id (pass + 1) (names_of (l' ∷ r' ∷ rest)) result.1))
      → Finished pass dir (l ∷ r ∷ sources) (
          (passes fuel machine id (pass + 1) (names_of next) >>= λ more.
          respond (more.0, m.consumed ++ more.1))
            result.1)
  after_pass fuel pass dir l r sources {result} m [] f e go = absurd (
      subst (λ (next : List Source). StartsJoined machine id pass result.1 (l ∷ r ∷ sources) next) e
        m.joined)
  after_pass fuel pass dir l r sources {result} m (s ∷ []) f e go =
      let out : Output machine id pass result.1 s =
        subst (λ (next : List Source). StartsJoined machine id pass result.1 (l ∷ r ∷ sources) next)
          e m.joined in
      let apart = consumed-apart pass pass out.place m.consumed (omega arith) m.kept in
      rw (passes_one fuel (pass + 1) s.name result.1, append-nil m.consumed)
        (record {
          last = s;
          consumed = m.consumed;
          fine = refl;
          at = pass;
          later = omega arith;
          output = out;
          answers = λ q.
              sym (or_else-none (get s.entries q))
              ∙ ap (λ (o : Option Bytes). or_else o none)
                  (ap (λ (x : BTreeMap Bytes). get x q) (sym (live_again s.entries out.all_live)))
              ∙ first_of_one s q
              ∙ ap (λ (next : List Source). first_live next q) (sym e)
              ∙ m.answers q;
          unconsumed =
              subst (λ (n : Bytes). All (λ c. same c n ≡ false) m.consumed) (sym out.name_is) apart;
          spared = λ n u d. consumed_spared pass n m.consumed u.1 d m.kept;
          frame = λ n u d. m.frame n (u.0, λ j le. output_spared pass j n u.1) d;
          fate = λ n.
              subst (λ (next : List Source). Fate dir result.1 (names_of next) m.consumed n) e
                (m.fate n);
          moved =
              subst
                (λ (next : List Source).
                  All (λ x. Moved result.1 (names_of next) m.consumed x.name) (l ∷ r ∷ sources))
                e m.moved;
        })
    where
      first_of_one :
          (s : Source) (q : Bytes) → or_else (get (live s.entries) q) none ≡ first_live (s ∷ []) q
      first_of_one s q = unfold first_live in refl
  after_pass fuel pass dir l r sources {result} m (s ∷ t ∷ rest) f e go =
      let same_next = λ (P : List Source → Type 0) (x : P m.next). subst P e x in
      let places = subst (λ (next : List Source). All (Place machine id pass 0) next) e m.places in
      let reads = subst (λ (next : List Source). All (Reads result.1) next) e m.reads in
      let few : suc (suc (length rest)) * 2 ≤ length sources + 3 =
        subst (λ (next : List Source). length next * 2 ≤ length sources + 3) e
          (omega (arith, m.fewer)) in
      let k =
        go s t rest (omega (arith, few)) (next_Inputs pass result.1 (s ∷ t ∷ rest) places reads)
          (subst (λ (next : List Source). Apart next) e m.apart) in
      let others : (n : Bytes) → Spared (l ∷ r ∷ sources) n → Spared (s ∷ t ∷ rest) n = λ n u. (
        subst (λ (next : List Source). All (λ x. same x.name n ≡ false) next) e
            (m.names n (u.0, λ j le. output_spared pass j n u.1)),
        u.1,
      ) in
      let apart =
        consumed-apart pass k.at k.output.place m.consumed (omega (arith, k.later)) m.kept in
      rw k.fine (record {
        last = k.last;
        consumed = m.consumed ++ k.consumed;
        fine = refl;
        at = k.at;
        later = omega (arith, k.later);
        output = k.output;
        answers =
            λ q. k.answers q ∙ ap (λ (next : List Source). first_live next q) (sym e) ∙ m.answers q;
        unconsumed =
            All-append (λ c. same c k.last.name ≡ false) m.consumed k.consumed
              (subst (λ (n : Bytes). All (λ c. same c n ≡ false) m.consumed) (sym k.output.name_is)
                apart)
              k.unconsumed;
        spared = λ n u d.
            All-append (λ c. same c n ≡ false) m.consumed k.consumed
              (consumed_spared pass n m.consumed u.1 d m.kept) (k.spared n (others n u) d);
        frame = λ n u d.
            k.frame n (others n u) d ∙ m.frame n (u.0, λ j le. output_spared pass j n u.1) d;
        fate = λ n.
            Fate-then (names_of (s ∷ t ∷ rest)) m.consumed
              (subst (λ (next : List Source). Fate dir result.1 (names_of next) m.consumed n) e
                (m.fate n))
              (λ o. Moved-at _ _ _ (s ∷ t ∷ rest) n k.moved o) (k.fate n);
        moved =
            Moved-through _ _ (names_of (s ∷ t ∷ rest)) m.consumed _ _ (l ∷ r ∷ sources)
              (subst
                (λ (next : List Source).
                  All (λ x. Moved result.1 (names_of next) m.consumed x.name) (l ∷ r ∷ sources))
                e m.moved)
              (λ n o. Moved-at _ _ _ (s ∷ t ∷ rest) n k.moved o) k.fate;
      })

  pub passes-Finished :
      (fuel pass : ℕ) (dir : Directory) (l r : Source) (sources : List Source)
      → length sources < fuel
      → Inputs machine id pass dir (l ∷ r ∷ sources)
      → Apart (l ∷ r ∷ sources)
      → Finished pass dir
          (l ∷ r ∷ sources)
          (passes fuel machine id pass (names_of (l ∷ r ∷ sources)) dir)
  unfolding passes
  passes-Finished zero pass dir l r sources f h a = absurd (omega arith)
  passes-Finished (suc fuel) pass dir l r sources f h a =
      let m = join_pairs-Passed machine id pass 0 dir (l ∷ r ∷ sources) h a in
      let d1 = (join_pairs machine id pass 0 (names_of (l ∷ r ∷ sources)) dir).1 in
      rw (passes, m.fine)
        (after_pass fuel pass dir l r sources m m.next f refl
          (λ l' r' rest f' h' a'. passes-Finished fuel (pass + 1) d1 l' r' rest f' h' a'))
