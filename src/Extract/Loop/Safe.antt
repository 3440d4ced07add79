-- ===== src/Extract/Loop/Safe.antt =====
-- What the extraction of safe-extract.ts asks of the file system, on any archive.
use gian_proxies.Base.{
  ℕ, zero, suc, ◌+◌, ◌≤◌, String, ◌≡◌, ◌≢◌, refl, sym, ap, ◌∙◌, Bool, true, ◌&&◌, ◌||◌, List, [],
  ◌∷◌, ◌++◌, length, length-append, take, all, All, All-append, arith, ◌==◌,
}
use mathlib.Core.List.{append-nil}
use gian_proxies.Extract.{
  Bytes, max_total_bytes, max_file_count, Action, make_directory, write_file, change_mode,
}
use gian_proxies.Extract.Path.{split_slash}
use gian_proxies.Extract.Path.Split.{is_entry_name}
use gian_proxies.Extract.Loop.{Extraction, has, parent, own_all, own_data, manifest}

-- A path whose parts are names of entries, so one inside the destination.
abbrev pub is_inside : List String → Bool
is_inside = all is_entry_name

-- What may be asked of the file system.
abbrev pub is_allowed : Action → Bool
is_allowed (make_directory p) = is_inside p
is_allowed (write_file p bytes mode) = is_inside p && (mode == own_all || mode == own_data)
is_allowed (change_mode p mode) = is_inside p && mode == own_all

-- The files that are written: their paths, and their bytes in all.
abbrev pub targets : List Action → List (List String)
targets [] = []
targets (make_directory p ∷ done) = targets done
targets (write_file p bytes mode ∷ done) = p ∷ targets done
targets (change_mode p mode ∷ done) = targets done

abbrev pub written_bytes : List Action → ℕ
written_bytes [] = 0
written_bytes (make_directory p ∷ done) = written_bytes done
written_bytes (write_file p bytes mode ∷ done) = length bytes + written_bytes done
written_bytes (change_mode p mode ∷ done) = written_bytes done

-- No path stands twice.
abbrev pub IsDistinct : List (List String) → Type 0
IsDistinct [] = Unit
IsDistinct (p ∷ ps) = All (λ q. q ≢ p) ps × IsDistinct ps

pub record Contained (done : List Action) : Type 0 where
  pub allowed : all is_allowed done ≡ true
  pub distinct : IsDistinct (targets done)
  pub no_manifest : All (λ p. p ≢ manifest ∷ []) (targets done)
  pub few : length (targets done) ≤ max_file_count
  pub small : written_bytes done ≤ max_total_bytes

-- A target is the parts of a name that is in `paths`.
abbrev pub Named : List String → List String → Type 0
Named paths p = (name : String) × (p ≡ split_slash name) × (has name paths ≡ true)

pub record Inv (s : Extraction) : Type 0 where
  pub contained : Contained s.done
  pub named : All (Named s.paths) (targets s.done)
  pub count : length (targets s.done) ≡ s.file_count
  pub total : written_bytes s.done ≤ s.total_bytes

pub All-map :
    {A : Type 0} (P Q : A → Type 0) → ((x : A) → P x → Q x) → (xs : List A) → All P xs → All Q xs
All-map P Q f [] h = tt
All-map P Q f (x ∷ xs) (p, h) = (f x p, All-map P Q f xs h)

all-append :
    (p : Action → Bool) (xs ys : List Action)
    → all p xs ≡ true
    → all p ys ≡ true
    → all p (xs ++ ys) ≡ true
all-append p [] ys h k = k
all-append p (x ∷ xs) ys h k = ground (arith, all-append p xs ys)

targets-append : (xs ys : List Action) → targets (xs ++ ys) ≡ targets xs ++ targets ys
targets-append [] ys = refl
targets-append (make_directory p ∷ xs) ys = targets-append xs ys
targets-append (write_file p b m ∷ xs) ys = ap (λ r. p ∷ r) (targets-append xs ys)
targets-append (change_mode p m ∷ xs) ys = targets-append xs ys

written_bytes-append :
    (xs ys : List Action) → written_bytes (xs ++ ys) ≡ written_bytes xs + written_bytes ys
written_bytes-append [] ys = omega arith
written_bytes-append (make_directory p ∷ xs) ys = written_bytes-append xs ys
written_bytes-append (write_file p b m ∷ xs) ys = omega (arith, written_bytes-append xs ys)
written_bytes-append (change_mode p m ∷ xs) ys = written_bytes-append xs ys

IsDistinct-append_one :
    (ps : List (List String)) (p : List String)
    → IsDistinct ps
    → All (λ q. q ≢ p) ps
    → IsDistinct (ps ++ p ∷ [])
IsDistinct-append_one [] p h k = (tt, tt)
IsDistinct-append_one (q ∷ ps) p (d, h) (n, k) =
    (All-append (λ r. r ≢ q) ps (p ∷ []) d ((λ e. n (sym e)), tt), IsDistinct-append_one ps p h k)

pub take_le : (n : ℕ) (xs : Bytes) → length (take n xs) ≤ n
take_le zero xs = omega arith
take_le (suc n) [] = omega arith
take_le (suc n) (x ∷ xs) = omega (arith, take_le n xs)

pub parent-inside : (p : List String) → is_inside p ≡ true → is_inside (parent p) ≡ true
parent-inside [] h = refl
parent-inside (x ∷ []) h = refl
parent-inside (x ∷ y ∷ p) h = ground (arith, parent-inside (y ∷ p))

-- An action that writes no file.
pub record IsQuiet (a : Action) : Type 0 where
  pub allowed : is_allowed a ≡ true
  pub no_target : targets (a ∷ []) ≡ []
  pub no_bytes : written_bytes (a ∷ []) ≡ 0

quiet_targets :
    (done : List Action) (a : Action) → IsQuiet a → targets (done ++ a ∷ []) ≡ targets done
quiet_targets done a q =
    targets-append done (a ∷ [])
    ∙ ap (λ r. targets done ++ r) q.no_target
    ∙ append-nil (targets done)

quiet_bytes :
    (done : List Action) (a : Action)
    → IsQuiet a
    → written_bytes (done ++ a ∷ []) ≡ written_bytes done
quiet_bytes done a q = omega (arith, written_bytes-append done (a ∷ []), q.no_bytes)

Contained-quiet :
    (done : List Action) (a : Action) → IsQuiet a → Contained done → Contained (done ++ a ∷ [])
Contained-quiet done a q c =
    let same = quiet_targets done a q in
    record {
      allowed = all-append is_allowed done (a ∷ []) c.allowed (rw (q.allowed) refl);
      distinct = rw same c.distinct;
      no_manifest = rw same c.no_manifest;
      few = rw same c.few;
      small = omega (arith, quiet_bytes done a q, c.small);
    }

pub Inv-quiet :
    (s : Extraction) (a : Action) → IsQuiet a → Inv s → Inv (record s { done = s.done ++ a ∷ [] })
Inv-quiet s a q i =
    let same = quiet_targets s.done a q in
    record {
      contained = Contained-quiet s.done a q i.contained;
      named = rw same i.named;
      count = rw same i.count;
      total = omega (arith, quiet_bytes s.done a q, i.total);
    }

-- Before the file `name` of at most `n` bytes is written, which is counted already.
pub record Ready (name : String) (n : ℕ) (s : Extraction) : Type 0 where
  pub contained : Contained s.done
  pub named : All (Named s.paths) (targets s.done)
  pub fresh : All (λ q. q ≢ split_slash name) (targets s.done)
  pub known : has name s.paths ≡ true
  pub not_manifest : split_slash name ≢ manifest ∷ []
  pub inside : is_inside (split_slash name) ≡ true
  pub count : length (targets s.done) + 1 ≡ s.file_count
  pub total : written_bytes s.done + n ≤ s.total_bytes
  pub few : s.file_count ≤ max_file_count
  pub small : s.total_bytes ≤ max_total_bytes

pub Ready-quiet :
    (name : String) (n : ℕ) (s : Extraction) (a : Action)
    → IsQuiet a
    → Ready name n s
    → Ready name n (record s { done = s.done ++ a ∷ [] })
Ready-quiet name n s a q r =
    let same = quiet_targets s.done a q in
    record {
      contained = Contained-quiet s.done a q r.contained;
      named = rw same r.named;
      fresh = rw same r.fresh;
      known = r.known;
      not_manifest = r.not_manifest;
      inside = r.inside;
      count = rw same r.count;
      total = omega (arith, quiet_bytes s.done a q, r.total);
      few = r.few;
      small = r.small;
    }

pub Ready-write :
    (name : String) (n : ℕ) (s : Extraction) (bytes : Bytes) (mode : ℕ)
    → length bytes ≤ n
    → (mode == own_all || mode == own_data) ≡ true
    → Ready name n s
    → Inv (record s { done = s.done ++ write_file (split_slash name) bytes mode ∷ [] })
Ready-write name n s bytes mode short m r =
    let target = split_slash name in
    let a = write_file target bytes mode in
    let grown : targets (s.done ++ a ∷ []) ≡ targets s.done ++ target ∷ [] =
      targets-append s.done (a ∷ []) in
    let size = written_bytes-append s.done (a ∷ []) in
    let longer = length-append (targets s.done) (target ∷ []) in
    record {
      contained = record {
        allowed =
            all-append is_allowed s.done (a ∷ []) r.contained.allowed (ground (arith, r.inside, m));
        distinct =
            rw grown (IsDistinct-append_one (targets s.done) target r.contained.distinct r.fresh);
        no_manifest = rw grown (
            All-append (λ p. p ≢ manifest ∷ []) (targets s.done) (target ∷ [])
              r.contained.no_manifest (r.not_manifest, tt));
        few = rw grown (omega (arith, longer, r.count, r.few));
        small = omega (arith, size, short, r.total, r.small);
      };
      named = rw grown (
          All-append (Named s.paths) (targets s.done) (target ∷ []) r.named
            ((name, refl, r.known), tt));
      count = rw grown (omega (arith, longer, r.count));
      total = omega (arith, size, short, r.total);
    }
