-- ===== src/Process/Leaks/Open.antt =====
-- kernel/process/process.cpp: `open` and the descriptors of the file system.
use shirleys_os.Prelude.{
  ℕ, ◌-◌, ◌<◌, ◌≡◌, ◌≢◌, ◌⊎◌, ◌↔◌, inl, inr, true, some, none, arith, update, update_self,
  update_ne, ℕ_discrete, sym, ◌∙◌, ap, Bool-cases, Option-cases, Found, List, Option,
}
use shirleys_os.Integers.{ℤ, pos, negsuc, ℤ-cases}
use shirleys_os.Process.{
  Services, Process, OpenFlags, file, unused, max_open_files, open_file, free_descriptor, known,
  access_of,
}
use shirleys_os.Process.Opening.{free_descriptor-Found}
use shirleys_os.Process.Leaks.{Laws, Held, Balanced}

module _ {W : Type 0} (s : Services W) (IsOpen : W → ℕ → Type 0) (Outside : ℕ → Type 0) where
  -- The same descriptors are open.
  pub rebased :
      (p : Process W) (v' : W)
      → Balanced IsOpen Outside p
      → ((c : ℕ) → IsOpen v' c ↔ IsOpen p.services c)
      → Balanced IsOpen Outside (record p { services = v' })
  rebased p v' v same = record {
    open_iff = λ b. (λ o. (v.open_iff b).0 ((same b).0 o), λ h. (same b).1 ((v.open_iff b).1 h));
    apart = v.apart;
    once = v.once;
  }

  module _ (laws : Laws s IsOpen) (p : Process W) (v : Balanced IsOpen Outside p) where
    module _ (path : List ℕ) (access : OpenFlags) (b : ℕ) (v' : W)
        (e : s.vfs_open p.services path access ≡ (pos b, v')) where
      fresh_descriptor : ¬ (Outside b ⊎ Held p b)
      fresh_descriptor h = laws.open_new p.services v' path access b e ((v.open_iff b).1 h)

      -- The table is full: the descriptor is closed again.
      closed_again : Balanced IsOpen Outside (record p { services = s.vfs_close v' b })
      closed_again = rebased p (s.vfs_close v' b) v (λ c. (
        λ o.
            let (before, ne) = (laws.close_removes v' b c).0 o in
            elim ((laws.open_adds p.services v' path access b e c).0 before) [
              | inl o' ↦ o'
              | inr same ↦ absurd (ne same)
            ],
        λ o. (laws.close_removes v' b c).1 (
          (laws.open_adds p.services v' path access b e c).1 (inl o),
          λ same. laws.open_new p.services v' path access b e (rw same at o),
        ),
      ))

      module _ (d : ℕ) (l : d < max_open_files) (free : p.table d ≡ unused) where
        abbrev taken : Process W
        taken = record { table = update p.table d (file b); services = v' }

        Held-before :
            (e c : ℕ)
            → e < max_open_files
            → update p.table d (file b) e ≡ file c
            → ((e ≡ d) × (c ≡ b)) ⊎ ((e ≢ d) × (p.table e ≡ file c))
        Held-before e c m at = elim (ℕ_discrete e d) [
          | yes same ↦ inl (
            same,
            (let z : file b ≡ file c = sym (update_self p.table d (file b)) ∙ (rw same at at) in
                cc),
          )
          | no ne ↦ inr (ne, sym (update_ne p.table d (file b) e ne) ∙ at)
        ]

        Held-after : (c : ℕ) → Held p c → Held taken c
        Held-after c (e, m, at) =
            let ne : e ≢ d = λ same.
              (let z : unused ≡ file c = sym free ∙ ap p.table (sym same) ∙ at in absurd cc) in
            (e, m, update_ne p.table d (file b) e ne ∙ at)

        taken-Balanced : Balanced IsOpen Outside taken
        taken-Balanced = record {
          open_iff = λ c. (
            λ o. elim ((laws.open_adds p.services v' path access b e c).0 o) [
              | inl o' ↦ elim ((v.open_iff c).0 o') [
                | inl out ↦ inl out
                | inr held ↦ inr (Held-after c held)
              ]
              | inr same ↦ inr (d, l, update_self p.table d (file b) ∙ ap file (sym same))
            ],
            λ h. elim h [
              | inl out ↦
                  (laws.open_adds p.services v' path access b e c).1
                    (inl ((v.open_iff c).1 (inl out)))
              | inr held ↦
                  (let (f, m, at) = held in
                    elim (Held-before f c m at) [
                      | inl (_, same) ↦
                          (laws.open_adds p.services v' path access b e c).1 (inr same)
                      | inr (ne, at') ↦
                          (laws.open_adds p.services v' path access b e c).1
                            (inl ((v.open_iff c).1 (inr (f, m, at'))))
                    ])
            ],
          );
          apart = λ c out held.
              let (f, m, at) = held in
              elim (Held-before f c m at) [
                | inl (_, same) ↦ fresh_descriptor (inl (rw same at out))
                | inr (ne, at') ↦ v.apart c out (f, m, at')
              ];
          once = λ f g c m n at at'. elim (Held-before f c m at) [
            | inl (h, same) ↦ elim (Held-before g c n at') [
              | inl (h', _) ↦ h ∙ sym h'
              | inr (ne, old) ↦ absurd (fresh_descriptor (inr (g, n, (rw same at old))))
            ]
            | inr (ne, old) ↦ elim (Held-before g c n at') [
              | inl (h', same) ↦ absurd (fresh_descriptor (inr (f, m, (rw same at old))))
              | inr (ne', old') ↦ v.once f g c m n old old'
            ]
          ];
        }

    given_access :
        (path : List ℕ) (flags : ℕ) (access : OpenFlags)
        → known flags ≡ true
        → access_of flags ≡ some access
        → Balanced IsOpen Outside (open_file s p (some path) flags).1
    unfolding open_file
    given_access path flags access k a =
        let v' = (s.vfs_open p.services path access).1 in
        elim (ℤ-cases (s.vfs_open p.services path access).0) [
          | inl (b, e) ↦
              (let whole : s.vfs_open p.services path access ≡ (pos b, v') =
                  ap (λ (i : ℤ). (i, v')) e in
                elim (Option-cases (free_descriptor p.table (max_open_files - 3) 3)) [
                  | inl full ↦ rw (k, a, e, full) (closed_again path access b v' whole)
                  | inr (d, found) ↦
                      (let f =
                          free_descriptor-Found p.table (max_open_files - 3) 3 max_open_files
                            (omega arith) in
                        let (h, l, free, before) : Found (λ d. p.table d ≡ unused) 3 max_open_files
                            (some d) =
                          (rw found at f) in
                        rw (k, a, e, found) (taken-Balanced path access b v' whole d l free))
                ])
          | inr (n, e) ↦
              (let whole : s.vfs_open p.services path access ≡ (negsuc n, v') =
                  ap (λ (i : ℤ). (i, v')) e in
                rw (k, a, e) (rebased p v' v (laws.open_fails p.services v' path access n whole)))
        ]

    pub open_file-Balanced :
        (path : Option (List ℕ)) (flags : ℕ) → Balanced IsOpen Outside (open_file s p path flags).1
    unfolding open_file
    open_file-Balanced none flags = v
    open_file-Balanced (some path) flags = elim (Bool-cases (known flags)) [
      | inr k ↦ rw k v
      | inl k ↦ elim (Option-cases (access_of flags)) [
        | inl a ↦ rw (k, a) v
        | inr (access, a) ↦ given_access path flags access k a
      ]
    ]
