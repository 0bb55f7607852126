-- ===== src/Regex/Groups.antt =====
-- The length of a group that stands at the end of a pattern.
use deft_rpc.Base.{
  ℕ, ◌+◌, ◌-◌, ◌≤◌, ◌≡◌, refl, sym, ap, ◌∙◌, false, some, ◌∷◌, arith, ◌==◌, ==_iff, length, take,
  length-take,
}
use deft_rpc.Text.{Text}
use deft_rpc.Regex.{
  Regex, ◌▹◌, group, line_end, Cursor, run, start, match, Found, at_end, group_text, lookup_group,
}
use deft_rpc.Regex.Split.{
  run-Follows, least, Moves-length, test_some, found_from-some, some_inj, group_sets,
}

module _ (a b : Regex) (n : ℕ) (other : (n == 0) ≡ false) where
  abbrev whole : Cursor → Cursor → Cursor → Cursor
  whole c d e = record e {
    groups =
        (0, take (length c.rest - length e.rest) c.rest)
        ∷ (n, take (length d.rest - length e.rest) d.rest)
        ∷ e.groups;
  }

  -- the cursors in front of the group and behind it
  run_tail_group :
      (c e : Cursor)
      → run (group 0 (a ▹ (group n b ▹ line_end))) c some ≡ some e
      → (d : Cursor) × (length d.rest + length c.before + least a ≤ length c.before + length c.rest)
        × (f : Cursor) × (whole c d f ≡ e)
  unfolding run
  run_tail_group c e h =
      let (d, p, m, l, u) = run-Follows a c e _ h in
      let (f, q, m', l', v) = run-Follows b d e _ p in
      (
        d,
        omega (arith, Moves-length m),
        f,
        some_inj (test_some (at_end f.rest) (some (whole c d f)) q),
      )

  -- What a match has in the group is that much shorter than the text.
  pub tail_group :
      (s : Text) (m : Found)
      → match (a ▹ (group n b ▹ line_end)) s ≡ some m
      → length (group_text m n) + least a ≤ length s
  unfolding match group_text
  tail_group s m h =
      let (e, o, x) =
        found_from-some (start s) (run (group 0 (a ▹ (group n b ▹ line_end))) (start s) some) h in
      let (d, l, f, y) = run_tail_group (start s) e o in
      let w : Text = take (length d.rest - length f.rest) d.rest in
      let g : m.groups ≡ (whole (start s) d f).groups =
        sym (ap (λ (k : Found). k.groups) x) ∙ sym (ap (λ (k : Cursor). k.groups) y) in
      rw g (
        rw (other, (==_iff n n).1 refl)
          (omega (arith, length-take (length d.rest - length f.rest) d.rest)))

-- Two groups: what stands between them adds to their lengths.
module _ (a g b t : Regex) (n k : ℕ) (n_other : (n == 0) ≡ false) (k_other : (k == 0) ≡ false)
    (apart : (n == k) ≡ false) (b_keeps : group_sets b n ≡ false)
    (t_keeps : group_sets t n ≡ false) where
  abbrev two_groups : Regex
  two_groups = (a ▹ group n g ▹ b) ▹ (group k t ▹ line_end)

  abbrev between : Cursor → Cursor → Text
  between c d = take (length c.rest - length d.rest) c.rest

  pub head_tail_groups :
      (s : Text) (m : Found)
      → match two_groups s ≡ some m
      → length (group_text m n) + least b + length (group_text m k) ≤ length s
  unfolding match run group_text
  head_tail_groups s m h =
      let (e, o, x) = found_from-some (start s) (run (group 0 two_groups) (start s) some) h in
      let (c, p, mc, lc, _) = run-Follows a (start s) e _ o in
      let (c', p', mc', lc', _) = run-Follows g c e _ p in
      let after : Cursor = record c' { groups = (n, between c c') ∷ c'.groups } in
      let (d, q, md, ld, xd) = run-Follows b after e _ p' in
      let (f, q', mf, lf, xf) = run-Follows t d e _ q in
      let last : Cursor = record f {
        groups = (0, between (start s) f) ∷ (k, between d f) ∷ f.groups;
      } in
      let y : last ≡ e = some_inj (test_some (at_end f.rest) (some last) q') in
      let z : m.groups ≡ last.groups =
        sym (ap (λ (w : Found). w.groups) x) ∙ sym (ap (λ (w : Cursor). w.groups) y) in
      let u : lookup_group n f.groups ≡ some (between c c') =
        xf n t_keeps ∙ xd n b_keeps ∙ rw ((==_iff n n).1 refl) in
      rw z (
        rw (n_other, k_other, apart, (==_iff k k).1 refl, u)
          (omega (
            arith,
            length-take (length c.rest - length c'.rest) c.rest,
            length-take (length d.rest - length f.rest) d.rest,
            Moves-length mc,
            Moves-length mc',
            Moves-length md,
            Moves-length mf,
          )))
