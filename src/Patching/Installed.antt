-- ===== src/Patching/Installed.antt =====
-- vcrmartin/patch.py: what `build` leaves: every slot that it names holds the last stub that it names
-- for it, and every slot leads back to its original.
use vcrpy.Prelude.{
  All, Eq, List, Option, Run, Str, [], ap, arith, ended, length, none, ok, refl, some, sym,
  then_run, true, ◌∙◌, ◌∷◌, ◌≡◌, List_eq, Pair_eq, ℕ_eq,
}
use vcrpy.Dict.{Dict, get, get-insert, get-insert_same, insert}
use vcrpy.Patching.{
  Store, Clients, Place, Triple, Value, build, build_patcher, build_patchers, build_triples,
  installed, one, origin, patch_entries, patch_found, patch_present, table,
}
use vcrpy.Patching.Originals.{
  Slot, Fits, FitsSlot, HasShape, IsSound, Roles, attribute, entry, follow-original, held,
  installed-IsSound,
}
use vcrpy.Patching.Naming.{
  or_held, all_slots, attribute-Named, entries_of, entry-Named, named_last, named_last-append,
  Named-new, or_held-twice, same_slot_sound, slots_of,
}

module _ {O C : Type 0} ⦃eO : Eq O⦄ ⦃eC : Eq C⦄ where
  -- One call of `build` after another.
  abbrev pub build_all : List (Clients O C) → Store O C → Run (Store O C)
  build_all [] s = ended (ok s)
  build_all (l ∷ ls) s = then_run (build l s) (build_all ls)

module _ {O C : Type 0} ⦃eO : Eq O⦄ ⦃eC : Eq C⦄ (roles : Roles O C) where
  -- A run that ends in a sound state, in which the slots named hold what was named last.
  abbrev pub Patched : List (Slot O × C) → Run (Store O C) → Store O C → Type 0
  Patched slots run s =
      (s' : Store O C) × (run ≡ ended (ok s'))
      × IsSound roles s'
      × ((q : Slot O) → held q s' ≡ or_held (named_last slots q) (held q s))

  insert-HasShape :
      (p : Place O) (k : Str) (stub : C) (d : Dict Str C)
      → HasShape roles p (table d)
      → HasShape roles p (table (insert k stub d))
  insert-HasShape p k stub d shape =
      (shape.0, λ j h. ground (arith, get-insert k j stub d, shape.1 j h))

  entries-Patched :
      (p : Place O) (items d : Dict Str C) (s : Store O C)
      → IsSound roles s
      → get p s.attributes ≡ some (table d)
      → All (λ (i : Str × C). (roles.has_key p i.0 ≡ true) × FitsSlot roles (entry p i.0) i.1) items
      → Patched (entries_of p items) (patch_entries p items d s) s
  unfolding patch_entries
  entries-Patched p [] d s w e fits = (s, refl, w, λ q. refl)
  entries-Patched p ((k, stub) ∷ items) d s w e fits =
      let shape = w.shapes p (table d) e in
      let (c, f) = shape.1 k fits.0.0 in
      let base = one (roles.original (entry p k)) in
      let before : held (entry p k) s ≡ some c = unfold held in rw e f in
      let found : origin s (one c) ≡ ended (ok base) =
        follow-original roles s (length s.baseclasses) (entry p k) c w before in
      let s1 = installed p (table (insert k stub d)) stub base s in
      let named = entry-Named s p k stub c d base e f in
      let sound =
        installed-IsSound roles s (entry p k) p (table (insert k stub d)) stub w
          (insert-HasShape p k stub d shape) fits.0.1 (Named-new (entry p k) stub s s1 named) in
      let (s', run, w', last) =
        entries-Patched p items (insert k stub d) s1 sound
          (get-insert_same p (table (insert k stub d)) s.attributes) fits.1 in
      (
        s',
        rw (patch_entries, f) (rw found run),
        w',
        λ q. last q ∙ ap (or_held _) (named q) ∙ or_held-twice _ _ (held q s),
      )

  attribute-Patched :
      (p : Place O) (stub c : C) (s : Store O C)
      → IsSound roles s
      → get p s.attributes ≡ some (one c)
      → FitsSlot roles (attribute p) stub
      → Patched ((attribute p, stub) ∷ []) (patch_found p (one stub) (one c) s) s
  unfolding patch_found
  attribute-Patched p stub c s w e fits =
      let base = one (roles.original (attribute p)) in
      let before : held (attribute p) s ≡ some c = unfold held in rw e refl in
      let found : origin s (one c) ≡ ended (ok base) =
        follow-original roles s (length s.baseclasses) (attribute p) c w before in
      let named = attribute-Named s p stub c base e in
      let s1 = installed p (one stub) stub base s in
      (
        s1,
        rw (patch_found, found) refl,
        installed-IsSound roles s (attribute p) p (one stub) stub w (w.shapes p (one c) e) fits
            (Named-new (attribute p) stub s s1 named),
        named,
      )

  absent_slots :
      (slots : List (Slot O × C)) (s : Store O C)
      → All (λ (x : Slot O × C). held x.0 s ≡ none) slots
      → (q : Slot O) → held q s ≡ or_held (named_last slots q) (held q s)
  absent_slots [] s a q = refl
  absent_slots ((q', stub) ∷ slots) s a q =
      ground (arith, absent_slots slots s a.1 q, same_slot_sound q' q, a.0)

  absent_entries :
      (p : Place O) (items : Dict Str C) (s : Store O C)
      → get p s.attributes ≡ none
      → All (λ (x : Slot O × C). held x.0 s ≡ none) (entries_of p items)
  unfolding held
  absent_entries p [] s e = tt
  absent_entries p ((k, stub) ∷ items) s e = (rw e refl, absent_entries p items s e)

  present-Patched :
      (p : Place O) (r : Value C) (v : Option (Value C)) (s : Store O C)
      → IsSound roles s
      → get p s.attributes ≡ v
      → Fits roles p r
      → Patched (slots_of (record { place = p; replacement = r })) (patch_present p r v s) s
  unfolding patch_present
  present-Patched p (one stub) none s w e fits =
      (s, refl, w, absent_slots ((attribute p, stub) ∷ []) s (unfold held in rw e refl, tt))
  present-Patched p (table items) none s w e fits =
      (s, refl, w, absent_slots _ s (absent_entries p items s e))
  present-Patched p (one stub) (some (one c)) s w e fits = attribute-Patched p stub c s w e fits.1
  present-Patched p (one stub) (some (table d)) s w e fits =
      let wrong = (w.shapes p (table d) e).0 in absurd (cc (wrong, fits.0))
  present-Patched p (table items) (some (table d)) s w e fits =
      unfold patch_found in entries-Patched p items d s w e fits.1
  present-Patched p (table items) (some (one c)) s w e fits =
      let wrong = w.shapes p (one c) e in absurd (cc (wrong, fits.0))

  -- One call of `_build_patcher`.
  patcher-Patched :
      (t : Triple O C) (s : Store O C)
      → IsSound roles s
      → Fits roles t.place t.replacement
      → Patched (slots_of t) (build_patcher t s) s
  unfolding build_patcher
  patcher-Patched t s w fits =
      present-Patched t.place t.replacement (get t.place s.attributes) s w refl fits

  patchers-Patched :
      (triples : List (Triple O C)) (s : Store O C)
      → IsSound roles s
      → All (λ (t : Triple O C). Fits roles t.place t.replacement) triples
      → Patched (all_slots triples) (build_patchers triples s) s
  unfolding build_patchers
  patchers-Patched [] s w fits = (s, refl, w, λ q. refl)
  patchers-Patched (t ∷ triples) s w fits =
      let (s1, run1, w1, last1) = patcher-Patched t s w fits.0 in
      let (s', run, w', last) = patchers-Patched triples s1 w1 fits.1 in
      (
        s',
        rw (build_patchers, run1) run,
        w',
        λ q.
            last q
            ∙ ap (or_held _) (last1 q)
            ∙ or_held-twice _ _ (held q s)
            ∙ ap (λ x. or_held x (held q s)) (sym (named_last-append (slots_of t) _ q)),
      )

  -- In an installation that is sound, whose stubs go where their classes belong, `build` comes to
  -- its end, without an exception: no `while` loop runs on. Each slot that it names and that exists
  -- then holds the stub that it names for it last, every other slot what it held before; and the
  -- installation is sound again, so that a further `build` does the same.
  pub build_installs :
      (l : Clients O C) (s : Store O C)
      → IsSound roles s
      → All (λ (t : Triple O C). Fits roles t.place t.replacement) (build_triples l)
      → (s' : Store O C) × (build l s ≡ ended (ok s'))
        × IsSound roles s'
        × ((q : Slot O)
            → held q s' ≡ or_held (named_last (all_slots (build_triples l)) q) (held q s))
  unfolding build
  build_installs l s w fits = patchers-Patched (build_triples l) s w fits

  builds-IsSound :
      (ls : List (Clients O C)) (s : Store O C)
      → IsSound roles s
      → All
          (λ (l : Clients O C).
            All (λ (t : Triple O C). Fits roles t.place t.replacement) (build_triples l))
          ls
      → (s' : Store O C) × (build_all ls s ≡ ended (ok s')) × IsSound roles s'
  builds-IsSound [] s w fits = (s, refl, w)
  builds-IsSound (l ∷ ls) s w fits =
      let (s1, run1, w1, _) = build_installs l s w fits.0 in
      let (s', run, w') = builds-IsSound ls s1 w1 fits.1 in (s', rw run1 run, w')

  -- In an installation that is sound, in which every slot already leads to its original, and for
  -- clients whose stubs go where their classes belong: however often `build` is called, it ends
  -- without an exception, and the `while` loop from the class of any slot still ends at the original
  -- of that slot, so that a stub never uses another stub as its real connection.
  pub builds_keep_originals :
      (ls : List (Clients O C)) (s : Store O C)
      → IsSound roles s
      → All
          (λ (l : Clients O C).
            All (λ (t : Triple O C). Fits roles t.place t.replacement) (build_triples l))
          ls
      → (s' : Store O C) × (build_all ls s ≡ ended (ok s'))
        × ((q : Slot O) (c : C)
            → held q s' ≡ some c
            → origin s' (one c) ≡ ended (ok (one (roles.original q))))
  builds_keep_originals ls s w fits =
      let (s', run, w') = builds-IsSound ls s w fits in
      (s', run, λ q c h. follow-original roles s' (length s'.baseclasses) q c w' h)
