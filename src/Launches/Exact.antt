-- ===== src/Launches/Exact.antt =====
-- What one provenance can authorize (src/lumi_eggcracker/launches.py, lines 193-225).
use lumi_eggcracker.Base.{
  ℕ, String, ◌≡◌, sym, ap, ◌∙◌, &&_split, ==_iff, require-eq-ok, >>=-eq-ok, true, ◌&&◌, Option,
  none, some, ◌==◌, str_eq, arith, eq_iff, Result-cases, inl, inr, ok, or_raise,
}
use lumi_eggcracker.Launches.Identity.{
  Kernel, CgroupIdentity, validate_identity, path_of, unit_path,
}
use lumi_eggcracker.Launches.Provenance.{
  Provenance, ProcessSnapshot, authorizes, identity_of, is_ok,
}

some_directory :
    (o : Option (ℕ × ℕ)) (found : ℕ × ℕ) (identity : CgroupIdentity)
    → (found.0 == identity.device && found.1 == identity.inode) ≡ true
    → or_raise o "owned cgroup is unavailable" ≡ ok found
    → o ≡ some (identity.device, identity.inode)
some_directory none found identity same e = cc
some_directory (some (device, inode)) found identity same e = ground (arith, same, e)

identity-directory :
    (k : Kernel) (identity : CgroupIdentity)
    → is_ok (validate_identity k identity) ≡ true
    → (k.boot_name ≡ identity.boot_id)
      × (k.directory identity.cgroup ≡ some (identity.device, identity.inode))
unfolding validate_identity path_of
identity-directory k identity h = elim (Result-cases (validate_identity k identity)) [
  | inr (message, e) ↦ absurd (ground (arith, e, h))
  | inl (done, e) ↦
      (let (boot, e1) = require-eq-ok (str_eq identity.boot_id k.boot_name) _ _ e in
        let (found, e2, e3) = >>=-eq-ok (path_of k identity.cgroup) _ e1 in
        let (same, _) =
          require-eq-ok (found.0 == identity.device && found.1 == identity.inode) _ _ e3 in
        let (_, e4) = require-eq-ok (unit_path identity.cgroup) _ _ e2 in
        (
          ground (arith, boot, eq_iff identity.boot_id k.boot_name),
          some_directory (k.directory identity.cgroup) found identity same e4,
        ))
]

-- What an authorization fixes.
pub record IsBound (k : Kernel) (s : ProcessSnapshot) (sha : String) (m : Option (ℕ × ℕ))
    (p : Provenance) : Type 0 where
  pub boot : k.boot_name ≡ p.boot_id
  pub directory : k.directory p.cgroup ≡ some (p.cgroup_device, p.cgroup_inode)
  pub pid : s.pid ≡ p.pid
  pub start_time : s.start_time ≡ p.start_time
  pub uid : s.uid ≡ p.material.uid
  pub file : m ≡ some (p.material.executable_device, p.material.executable_inode)
  pub content : sha ≡ p.material.executable_sha256

pair_eq : {a b c d : ℕ} → a ≡ b → c ≡ d → ◌≡◌ {A = ℕ × ℕ} (a, c) (b, d)
pair_eq e f = cc

authorizes-IsBound :
    (k : Kernel) (s : ProcessSnapshot) (sha : String) (m : Option (ℕ × ℕ)) (p : Provenance)
    → authorizes k s sha m p ≡ true
    → IsBound k s sha m p
unfolding authorizes
authorizes-IsBound k s sha none p h = cc
authorizes-IsBound k s sha (some (device, inode)) p h =
    let (h1, _) = &&_split _ _ h in
    let (h2, content) = &&_split _ _ h1 in
    let (h3, ino) = &&_split _ _ h2 in
    let (h4, dev) = &&_split _ _ h3 in
    let (h5, _) = &&_split _ _ h4 in
    let (h6, uid) = &&_split _ _ h5 in
    let (h7, start) = &&_split _ _ h6 in
    let (valid, pid) = &&_split _ _ h7 in
    let (boot, directory) = identity-directory k (identity_of p) valid in
    record {
      boot = boot;
      directory = directory;
      pid = (==_iff s.pid p.pid).0 pid;
      start_time = (==_iff s.start_time p.start_time).0 start;
      uid = (==_iff s.uid p.material.uid).0 uid;
      file =
          ap (λ (x : ℕ × ℕ). some x)
            (pair_eq ((==_iff device p.material.executable_device).0 dev)
              ((==_iff inode p.material.executable_inode).0 ino));
      content = (eq_iff sha p.material.executable_sha256).0 content;
    }

-- Two authorizations by one provenance, at whatever moments, are of the same boot, cgroup directory,
-- process, start time, executable file and content: a reused process id or a recreated cgroup is
-- never authorized.
pub authorizes-exact :
    (k k' : Kernel) (s s' : ProcessSnapshot) (sha sha' : String) (m m' : Option (ℕ × ℕ))
    (p : Provenance)
    → authorizes k s sha m p ≡ true
    → authorizes k' s' sha' m' p ≡ true
    → (k.boot_name ≡ k'.boot_name)
      × (k.directory p.cgroup ≡ k'.directory p.cgroup)
      × (s.pid ≡ s'.pid)
      × (s.start_time ≡ s'.start_time)
      × (m ≡ m')
      × (sha ≡ sha')
authorizes-exact k k' s s' sha sha' m m' p h h' =
    let b = authorizes-IsBound k s sha m p h in
    let b' = authorizes-IsBound k' s' sha' m' p h' in
    (
      b.boot ∙ sym b'.boot,
      b.directory ∙ sym b'.directory,
      b.pid ∙ sym b'.pid,
      b.start_time ∙ sym b'.start_time,
      b.file ∙ sym b'.file,
      b.content ∙ sym b'.content,
    )
