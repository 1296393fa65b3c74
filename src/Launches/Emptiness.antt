-- ===== src/Launches/Emptiness.antt =====
-- What a complete proof of `verify_empty` rests on (src/lumi_eggcracker/containment.py, lines
-- 125-148).
use lumi_eggcracker.Base.{
  ℕ, String, ◌≡◌, ◌⊎◌, refl, sym, ap, ◌∙◌, true, false, ◌&&◌, Option, none, some, List, [], ◌∷◌,
  ◌==◌, arith, eq_iff, str_eq, Bool-cases, inl, inr, Elem, first, later, All, Result, ok, err,
  Result-cases, Option-cases,
}
use lumi_eggcracker.Base.Dict.{Dict, lookup}
use lumi_eggcracker.Launches.Identity.{
  CgroupIdentity, Kernel, unit_path, path_of, validate_identity,
}
use lumi_eggcracker.Launches.Readings.{
  Raise, os_error, input_error, value_error, Outcome, gives, raises, is_collected, is_nil,
  is_taken_for_gone, Survey, Look, look, events_of, survivors_of, directory_pids, sorted_pids,
  checked,
}
use lumi_eggcracker.Launches.Signs.{
  Outcome-cases, and_then-gives, checked-gives, events_of-gives, sorted_pids-empty,
  directory_pids-empty, is_collected-errno, ReadsGone, is_taken_for_gone-ReadsGone,
}
use lumi_eggcracker.Launches.Verifying.{
  EmptyProof, is_zero, proof_of, after_kill, verify_looks, verify_empty,
}

-- A turn on which a complete proof can rest. Counted: the identity holds, `populated` reads 0, and no
-- `cgroup.procs`, of the cgroup's own directory or one below it, has a line. Missing: in the boot of
-- the identity, its path is no directory, or a link. Unread: the identity cannot be read, and the error
-- reads as if the cgroup were gone. Reading lost: the identity holds, and what is read after it raises
-- an error that reads so. Kill lost: the write of the kill raises ENOENT or ENODEV.
pub data ShowsEmpty (identity : CgroupIdentity) (l : Look) : Type 0 where
  counted :
      (k : Kernel) (d : Dict ℕ) (files : List (Outcome (List String)))
      → l.kernel ≡ gives k
      → validate_identity k identity ≡ ok tt
      → l.events ≡ gives d
      → lookup "populated" d ≡ some 0
      → l.procs ≡ gives files
      → All (λ f. f ≡ gives []) files
      → ShowsEmpty identity l
  directory_missing :
      (k : Kernel)
      → l.kernel ≡ gives k
      → identity.boot_id ≡ k.boot_name
      → k.directory identity.cgroup ≡ none
      → ShowsEmpty identity l
  identity_unread : (e : Raise) → l.kernel ≡ raises e → ReadsGone e → ShowsEmpty identity l
  reading_lost :
      (k : Kernel) (e : Raise)
      → l.kernel ≡ gives k
      → validate_identity k identity ≡ ok tt
      → look identity l ≡ raises e
      → ReadsGone e
      → ShowsEmpty identity l
  kill_lost :
      (found : Survey) (n : ℕ) (text : String)
      → look identity l ≡ gives found
      → l.kill ≡ some (os_error n text)
      → (n ≡ 2) ⊎ (n ≡ 19)
      → ShowsEmpty identity l

not_taken :
    (m message : String)
    → ◌≡◌ {A = Result (Unit {0})} (err m) (err message)
    → is_taken_for_gone (input_error m) ≡ false
    → is_taken_for_gone (input_error message) ≡ true
    → ⊥
not_taken m message h other taken =
    let same : m ≡ message = cc in
    let both : false ≡ true =
      sym other ∙ ap (λ (z : String). is_taken_for_gone (input_error z)) same ∙ taken in
    cc

-- A refusal of the identity that is taken for a cgroup that is gone is that of the directory.
refusal-missing :
    (k : Kernel) (identity : CgroupIdentity) (message : String)
    → validate_identity k identity ≡ err message
    → is_taken_for_gone (input_error message) ≡ true
    → (identity.boot_id ≡ k.boot_name) × (k.directory identity.cgroup ≡ none)
unfolding validate_identity path_of is_taken_for_gone
refusal-missing k identity message h taken =
    elim (Bool-cases (str_eq identity.boot_id k.boot_name)) [
      | inr other ↦
          absurd (not_taken "workload boot identity changed" message (rw other at h) refl taken)
      | inl same ↦ elim (Bool-cases (unit_path identity.cgroup)) [
        | inr outside ↦ absurd (
            not_taken "cgroup is outside the Eggcracker unit namespace" message
              (rw (same, outside) at h) refl taken)
        | inl inside ↦ elim (Option-cases (k.directory identity.cgroup)) [
          | inl missing ↦ (ground (arith, same, eq_iff identity.boot_id k.boot_name), missing)
          | inr (found, there) ↦
              elim (Bool-cases (found.0 == identity.device && found.1 == identity.inode)) [
                | inl held ↦ absurd (ground (arith, rw (same, inside, there, held) at h))
                | inr drift ↦ absurd (
                    not_taken "owned cgroup identity drifted" message
                      (rw (same, inside, there, drift) at h) refl taken)
              ]
        ]
      ]
    ]

is_zero-some : (o : Option ℕ) → is_zero o ≡ true → o ≡ some 0
is_zero-some none h = cc
is_zero-some (some n) h = ground (arith, h)

-- A reading that makes a complete proof counts 0 and lists nobody.
complete-counts :
    (populated : Option ℕ) (survivors : List ℕ) (descendants : ℕ) (found : Survey)
    → gives (record { populated = populated; survivors = survivors; descendants = descendants })
      ≡ gives found
    → (proof_of found).complete ≡ true
    → (populated ≡ some 0) × (is_nil survivors ≡ true)
complete-counts populated survivors descendants found h c =
    let same : record { populated = populated; survivors = survivors; descendants = descendants }
        ≡ found =
      cc in
    let both : is_zero populated && is_nil survivors ≡ true =
      ap (λ (f : Survey). (proof_of f).complete) same ∙ c in
    (is_zero-some populated (ground (arith, both)), ground (arith, both))

-- Where the survivors are none, no file has a line.
survivors_of-empty :
    (listed : Outcome (List (Outcome (List String)))) (pair : List ℕ × ℕ)
    → survivors_of listed ≡ gives pair
    → is_nil pair.0 ≡ true
    → (files : List (Outcome (List String))) × (listed ≡ gives files)
      × All (λ f. f ≡ gives []) files
unfolding survivors_of
survivors_of-empty listed pair h e =
    let (files, there, h1) = and_then-gives listed _ pair h in
    let (found, read, h2) = and_then-gives (directory_pids files) _ pair h1 in
    let whole : (sorted_pids found.0, found.1) ≡ pair = cc in
    let nobody : is_nil (sorted_pids found.0) ≡ true =
      ap (λ (z : List ℕ × ℕ). is_nil z.0) whole ∙ e in
    (files, there, directory_pids-empty files found read (sorted_pids-empty found.0 nobody))

-- What is read where the identity holds and every reading succeeds.
look-gives :
    (identity : CgroupIdentity) (l : Look) (found : Survey)
    → look identity l ≡ gives found
    → (proof_of found).complete ≡ true
    → ShowsEmpty identity l
unfolding look
look-gives identity l found h c =
    let (k, read_k, h1) = and_then-gives l.kernel _ found h in
    let (u, valid, h2) = and_then-gives (checked (validate_identity k identity)) _ found h1 in
    let (d, read_d, h3) = and_then-gives (events_of l.events) _ found h2 in
    let (pair, read_p, h4) = and_then-gives (survivors_of l.procs) _ found h3 in
    let (zero, nobody) = complete-counts (lookup "populated" d) pair.0 pair.1 found h4 c in
    let (files, listed, empty) = survivors_of-empty l.procs pair read_p nobody in
    counted k d files read_k (checked-gives (validate_identity k identity) tt valid)
      (events_of-gives l.events d read_d) zero listed empty

look-raises :
    (identity : CgroupIdentity) (l : Look) (e : Raise)
    → look identity l ≡ raises e
    → is_taken_for_gone e ≡ true
    → ShowsEmpty identity l
look-raises identity l e h taken = elim (Outcome-cases l.kernel) [
  | inr (f, failed) ↦
      (let same : f ≡ e = unfold look in ground (arith, failed, h) in
        identity_unread e (failed ∙ ap (λ (z : Raise). raises z) same)
          (is_taken_for_gone-ReadsGone e taken))
  | inl (k, read) ↦ elim (Result-cases (validate_identity k identity)) [
    | inl (u, valid) ↦ reading_lost k e read valid h (is_taken_for_gone-ReadsGone e taken)
    | inr (message, refused) ↦
        (let same : input_error message ≡ e = unfold look in ground (arith, read, refused, h) in
          let (boot, missing) =
            refusal-missing k identity message refused (ap is_taken_for_gone same ∙ taken) in
          directory_missing k read boot missing)
  ]
]

-- A kill that ends the loop with a proof raised ENOENT or ENODEV.
after_kill-gives :
    (kill : Option Raise) (more : Outcome EmptyProof) (proof : EmptyProof)
    → after_kill kill more ≡ gives proof
    → ((n : ℕ) × (text : String) × (kill ≡ some (os_error n text)) × ((n ≡ 2) ⊎ (n ≡ 19)))
      ⊎ (more ≡ gives proof)
unfolding after_kill is_collected
after_kill-gives none more proof h = inr h
after_kill-gives (some (os_error n text)) more proof h =
    elim (Bool-cases (is_collected (os_error n text))) [
      | inl e ↦ inl (n, text, refl, is_collected-errno n text e)
      | inr e ↦ absurd (ground (arith, e, h))
    ]
after_kill-gives (some (input_error text)) more proof h = cc
after_kill-gives (some value_error) more proof h = cc

verify_looks-ShowsEmpty :
    (identity : CgroupIdentity) (looks : List Look) (last proof : EmptyProof)
    → last.complete ≡ false
    → verify_looks identity looks last ≡ gives proof
    → proof.complete ≡ true
    → (l : Look) × Elem l looks × ShowsEmpty identity l
unfolding verify_looks
verify_looks-ShowsEmpty identity [] last proof pending h c = absurd (ground (arith, pending, h, c))
verify_looks-ShowsEmpty identity (l ∷ rest) last proof pending h c =
    elim (Outcome-cases (look identity l)) [
      | inr (e, failed) ↦ elim (Bool-cases (is_taken_for_gone e)) [
        | inl taken ↦ (l, first, look-raises identity l e failed taken)
        | inr other ↦ absurd (ground (arith, failed, other, h))
      ]
      | inl (found, read) ↦ elim (Bool-cases (proof_of found).complete) [
        | inl full ↦ (l, first, look-gives identity l found read full)
        | inr partial ↦
            (let step : after_kill l.kill (verify_looks identity rest (proof_of found))
                  ≡ gives proof =
                ground (arith, read, partial, h) in
              elim (after_kill-gives l.kill (verify_looks identity rest (proof_of found)) proof
                step) [
                  | inl (n, text, lost, number) ↦
                      (l, first, kill_lost found n text read lost number)
                  | inr more ↦
                      (let (o, there, shown) =
                          verify_looks-ShowsEmpty identity rest (proof_of found) proof partial more
                            c in
                        (o, later there, shown))
                ])
      ]
    ]

-- `verify_empty` gives a complete proof only on the ground of one of its turns, which is one of these.
-- The identity held, `populated` read 0, and no `cgroup.procs` of the cgroup or below it had a line.
-- Or, in the boot of the identity, its path was no directory or was a link. Or the identity could not
-- be read, or it held and a later reading raised, with an error that reads as if the cgroup were gone:
-- an OSError ENOENT or ENODEV, or a text that has `unavailable`, `No such file` or `No such device` in
-- it. Or the write of the kill raised ENOENT or ENODEV. In all but the first, the code takes the
-- cgroup to be gone; the error need not show it.
pub verify_empty-ShowsEmpty :
    (identity : CgroupIdentity) (looks : List Look) (proof : EmptyProof)
    → verify_empty identity looks ≡ gives proof
    → proof.complete ≡ true
    → (l : Look) × Elem l looks × ShowsEmpty identity l
unfolding verify_empty
verify_empty-ShowsEmpty identity looks proof h c =
    verify_looks-ShowsEmpty identity looks _ proof refl h c
