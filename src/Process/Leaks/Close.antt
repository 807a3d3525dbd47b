-- ===== src/Process/Leaks/Close.antt =====
-- kernel/process/process.cpp: giving a descriptor up.
use shirleys_os.Prelude.{
  ap, ℕ, ◌<◌, ◌≡◌, ◌≢◌, ◌⊎◌, ◌↔◌, inl, inr, refl, update, update_self, update_ne, ℕ_discrete, sym,
  ◌∙◌,
}
use shirleys_os.Process.{
  standard_output, standard_input, Services, Process, Entry, file, unused, release, max_open_files,
}
use shirleys_os.Process.Leaks.{Laws, Held, Balanced}

-- The table without entry `d`, and the services after `release`.
abbrev pub cleared : {W : Type 0} → Services W → Process W → ℕ → Process W
cleared s p d = record {
  table = update p.table d unused;
  services = release s p.services (p.table d);
}

module _ {W : Type 0} (s : Services W) (IsOpen : W → ℕ → Type 0) (Outside : ℕ → Type 0) where
  unused_elsewhere :
      (p : Process W) (d e b : ℕ)
      → update p.table d unused e ≡ file b
      → (e ≢ d) × (p.table e ≡ file b)
  unused_elsewhere p d e b at = elim (ℕ_discrete e d) [
    | yes same ↦
        (let z : unused ≡ file b = sym (update_self p.table d unused) ∙ (rw same at at) in
          absurd cc)
    | no ne ↦ (ne, sym (update_ne p.table d unused e ne) ∙ at)
  ]

  -- Entries that are still there are held as before.
  Held-cleared :
      (p : Process W) (d b : ℕ)
      → Held (cleared s p d) b
      → (e : ℕ) × (e < max_open_files) × (e ≢ d) × (p.table e ≡ file b)
  Held-cleared p d b (e, l, at) = let (ne, at') = unused_elsewhere p d e b at in (e, l, ne, at')

  cleared-Held :
      (p : Process W) (d b e : ℕ)
      → e < max_open_files
      → e ≢ d
      → p.table e ≡ file b
      → Held (cleared s p d) b
  cleared-Held p d b e l ne at = (e, l, update_ne p.table d unused e ne ∙ at)

  module _ (laws : Laws s IsOpen) (p : Process W) (v : Balanced IsOpen Outside p) (d : ℕ)
      (l : d < max_open_files) where
    file_of : {b c : ℕ} → p.table d ≡ file b → p.table d ≡ file c → c ≡ b
    file_of at at' = cc

    other-IsOpen :
        ((b : ℕ) → p.table d ≢ file b)
        → (c : ℕ) → IsOpen p.services c ↔ (Outside c ⊎ Held (cleared s p d) c)
    other-IsOpen no_file c = (
      λ o. elim ((v.open_iff c).0 o) [
        | inl out ↦ inl out
        | inr (e, m, there) ↦
            inr (cleared-Held p d c e m (λ same. no_file c (ap p.table (sym same) ∙ there)) there)
      ],
      λ h. elim h [
        | inl out ↦ (v.open_iff c).1 (inl out)
        | inr held ↦
            (let (e, m, _, there) = Held-cleared p d c held in (v.open_iff c).1 (inr (e, m, there)))
      ],
    )

    cleared-IsOpen :
        (x : Entry)
        → p.table d ≡ x
        → (c : ℕ) → IsOpen (release s p.services x) c ↔ (Outside c ⊎ Held (cleared s p d) c)
    unfolding release
    cleared-IsOpen (file b) at c = (
      λ o.
          let (before, ne) = (laws.close_removes p.services b c).0 o in
          elim ((v.open_iff c).0 before) [
            | inl out ↦ inl out
            | inr (e, m, there) ↦ inr (
                cleared-Held p d c e m (λ same. ne (file_of at (ap p.table (sym same) ∙ there)))
                  there)
          ],
      λ h. elim h [
        | inl out ↦
            (laws.close_removes p.services b c).1
              ((v.open_iff c).1 (inl out), λ same. v.apart c out (d, l, (rw same at)))
        | inr held ↦
            (let (e, m, ne, there) = Held-cleared p d c held in
              (laws.close_removes p.services b c).1 (
                (v.open_iff c).1 (inr (e, m, there)),
                λ same. ne (v.once e d c m l there (rw same at)),
              ))
      ],
    )
    cleared-IsOpen unused at c = other-IsOpen (λ b e. let z : unused ≡ file b = sym at ∙ e in cc) c
    cleared-IsOpen standard_input at c =
        other-IsOpen (λ b e. let z : Entry.standard_input ≡ file b = sym at ∙ e in cc) c
    cleared-IsOpen standard_output at c =
        other-IsOpen (λ b e. let z : Entry.standard_output ≡ file b = sym at ∙ e in cc) c

    pub cleared-Balanced : Balanced IsOpen Outside (cleared s p d)
    cleared-Balanced = record {
      open_iff = cleared-IsOpen (p.table d) refl;
      apart = λ b out held. let (e, m, _, at) = Held-cleared p d b held in v.apart b out (e, m, at);
      once = λ e f b m n at at'.
          v.once e f b m n (unused_elsewhere p d e b at).1 (unused_elsewhere p d f b at').1;
    }
