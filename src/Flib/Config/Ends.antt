-- ===== src/Flib/Config/Ends.antt =====
-- The loops over the configuration (Server/FLIB/retrieve.c) end: each round reads a part of the
-- file.
use myyima.Prelude.{
  ℕ, suc, ◌<◌, ◌≤◌, ◌≡◌, ◌≢◌, refl, ◌∙◌, ap, true, false, some, List, [], ◌∷◌, ◌++◌, arith, length,
  if◌then◌else◌, Option-cases, inl, inr, ◌⊎◌,
}
use myyima.Outcome.{ok, >>=-eq-ok, ok-injective, choice-eq-ok, of_ok, aborted≢ok, deref, fits}
use myyima.Outcome.Loops.{Next, Ended, ended, gave_up, no_fuel, loop, loop-ends, Shrinks}
use myyima.Messages.{Name, FloatBits}
use myyima.Flib.Names.{name_eq}
use myyima.Text.Numbers.{skip_space}
use myyima.Text.Scan.{Stream, line_end, word, scan_word, scan_key, scan_int, scan_ull, skip_line}
use myyima.Text.Scan.Lengths.{
  length-skip_space, length-skip_line, none≢some, some-injective, scan_word-less, scan_key-less,
  scan_int-less, scan_ull-less,
}
use myyima.Flib.Config.{
  Host, config_file, or_default, opened, appended, movie_key, at_end, disk_key, read_directory,
  disks_round, store_block, meta_round, map_ended, fuel_for, read_meta, scan_movie, new_movie,
  add_movie, movies_round, init_disks, init_movies, init_file_system, flib_init, after_disks,
  exit_on_error, disk_of,
}
use myyima.Flib.Retrieve.{Movie, Disk, strncpy}
use myyima.Text.{codes}

-- A number that falls with each round over the configuration.
abbrev size {ℓ} : {A : Type ℓ} → Stream × A → ℕ
size (s, a) = if s.eof then 0 else suc (length s.rest)

-- A file that has been read further.
size-less :
    {A : Type 0} (s s' : Stream) (a a' : A)
    → s.eof ≡ false
    → (length s'.rest < length s.rest) ⊎ (s'.eof ≡ true)
    → size (s', a') < size (s, a)
size-less s s' a a' e h = ground (arith, e, h)

read_directory-Shrinks :
    (s t : Stream) (d : Name) (n : Next (Stream × Name))
    → s.eof ≡ false
    → length t.rest < length s.rest
    → read_directory t ≡ ok n
    → Shrinks size (s, d) n
unfolding read_directory
read_directory-Shrinks s t d n unread shorter h = elim (Option-cases (scan_key t.rest)) [
  | inl e ↦ absurd (aborted≢ok (rw (read_directory, e) at h))
  | inr ((value, t'), e) ↦
      let (directory, copied, k) = >>=-eq-ok (fits 256 value) _ (rw (read_directory, e) at h) in
      of_ok (Shrinks size (s, d)) refl k (
        size-less s t' d directory unread
          (inl (omega (arith, shorter, scan_key-less t.rest value t' e))))
]

disks_round-Shrinks :
    (s : Stream × Name) (n : Next (Stream × Name)) → disks_round s ≡ ok n → Shrinks size s n
unfolding disks_round
disks_round-Shrinks (s, d) n h = elim (choice-eq-ok s.eof _ _ h) [
  | inl (e, k) ↦ of_ok (Shrinks size (s, d)) refl k tt
  | inr (e, k) ↦ elim (Option-cases (scan_key s.rest)) [
    | inl q ↦ of_ok (Shrinks size (s, d)) refl (rw q at k) (size-less s at_end d d e (inr refl))
    | inr ((word, t), q) ↦
        let (key, copied, k₁) = >>=-eq-ok (fits 256 word) _ (rw q at k) in
        let shorter = scan_key-less s.rest word t q in
        elim (choice-eq-ok (name_eq key disk_key) _ _ k₁) [
          | inl (_, k₂) ↦ read_directory-Shrinks s t d n e shorter k₂
          | inr (_, k₂) ↦ of_ok (Shrinks size (s, d)) refl k₂ (
              size-less s (skip_line 255 t.rest) d d e
                (inl (omega (arith, shorter, length-skip_line 255 t.rest))))
        ]
  ]
]

-- The metadata: the text that is left gets shorter.
abbrev text_size : Name × Movie → ℕ
text_size (text, m) = length text

meta_round-Shrinks :
    (s : Name × Movie) (n : Next (Name × Movie)) → meta_round s ≡ ok n → Shrinks text_size s n
unfolding meta_round
meta_round-Shrinks (text, m) n h =
    let (first, e₁, h₁) = >>=-eq-ok (scan_int text) _ h in
    elim (Option-cases first) [
      | inl q ↦ of_ok (Shrinks text_size (text, m)) refl (rw q at h₁) tt
      | inr ((b, r₁), q) ↦
          let (second, e₂, h₂) = >>=-eq-ok (scan_int r₁) _ (rw q at h₁) in
          elim (Option-cases second) [
            | inl q₂ ↦ of_ok (Shrinks text_size (text, m)) refl (rw q₂ at h₂) tt
            | inr ((k, r₂), q₂) ↦ elim (Option-cases (scan_word r₂)) [
              | inl q₃ ↦ of_ok (Shrinks text_size (text, m)) refl (rw (q₂, q₃) at h₂) tt
              | inr ((lens, r₃), q₃) ↦
                  let (m', stored, h₃) = >>=-eq-ok (store_block b k lens m) _ (rw (q₂, q₃) at h₂) in
                  of_ok (Shrinks text_size (text, m)) refl h₃ (
                    omega (
                      arith,
                      length-skip_space r₃,
                      scan_word-less r₂ lens r₃ q₃,
                      scan_int-less r₁ k r₂ (rw q₂ at e₂),
                      scan_int-less text b r₁ (rw q at e₁),
                    ))
            ]
          ]
    ]

map_ended-no_fuel {ℓ κ} :
    {A : Type ℓ} {B : Type κ} (f : A → B) (r : Ended A) → map_ended f r ≡ no_fuel → r ≡ no_fuel
map_ended-no_fuel f (ended a) h = cc
map_ended-no_fuel f gave_up h = cc
map_ended-no_fuel f no_fuel h = refl

read_meta-ends : (host : Host) (m : Movie) → read_meta host m ≢ ok no_fuel
unfolding read_meta
read_meta-ends host m h =
    let (file, _, h₁) = >>=-eq-ok (fits 256 (m.name ++ codes "_blk_meta.txt")) _ h in
    let (text, _, h₂) = >>=-eq-ok (deref (host.contents file)) _ h₁ in
    let (r, e, h₃) = >>=-eq-ok (loop meta_round (fuel_for text) (text, m)) _ h₂ in
    loop-ends meta_round text_size meta_round-Shrinks (fuel_for text) (text, m) (omega arith)
      (e ∙ ap ok (map_ended-no_fuel (λ (rest, m'). m') r (ok-injective h₃)))

new_movie-ends :
    (host : Host) (i : ℕ) (name : Name) (k : ℕ) (d : FloatBits)
    → new_movie host i name k d ≢ ok no_fuel
unfolding new_movie
new_movie-ends host i name k d h = elim (Option-cases (host.new_movie i)) [
  | inl e ↦ absurd (aborted≢ok (rw (new_movie, e) at h))
  | inr (m, e) ↦
      read_meta-ends host (record m { name = strncpy name; size = k; time = d })
        (rw (new_movie, e) at h)
]

init_disks-ends : (host : Host) → init_disks host ≢ ok no_fuel
unfolding init_disks
init_disks-ends host h = elim (Option-cases (host.contents config_file)) [
  | inl e ↦ cc
  | inr (text, e) ↦
      let (r, k, h₁) =
        >>=-eq-ok (loop disks_round (fuel_for text) (opened text, [])) _
          (rw (init_disks, e) at h) in
      loop-ends disks_round size disks_round-Shrinks (fuel_for text) (opened text, []) (omega arith)
        (k ∙ ap ok (map_ended-no_fuel (λ (s, directory). or_default directory) r (ok-injective h₁)))
]

appended-Shrinks :
    (s t : Stream) (ms : List Movie) (r : Ended Movie)
    → r ≢ no_fuel
    → ((ms' : List Movie) → size (t, ms') < size (s, ms))
    → Shrinks size (s, ms) (appended t ms r)
appended-Shrinks s t ms (ended m) fed less = less (ms ++ m ∷ [])
appended-Shrinks s t ms gave_up fed less = tt
appended-Shrinks s t ms no_fuel fed less = absurd (fed refl)

-- `%f` does not leave more than it gets.
abbrev pub Reads : Host → Type 0
Reads host = (t r : Name) (x : FloatBits) → host.scan_float t ≡ some (x, r) → length r ≤ length t

module _ (host : Host) (reads : Reads host) where
  scan_movie-less :
      (text name : Name) (k : ℕ) (d : FloatBits) (s : Stream)
      → scan_movie host text ≡ ok (some (name, k, d, s))
      → length s.rest < length text
  unfolding scan_movie
  scan_movie-less text name k d s h = elim (Option-cases (scan_word text)) [
    | inl e ↦ absurd (none≢some (ok-injective (rw (scan_movie, e) at h)))
    | inr ((word, r₁), e) ↦
        let (n, _, h₁) = >>=-eq-ok (fits 256 word) _ (rw (scan_movie, e) at h) in
        elim (Option-cases (scan_ull r₁)) [
          | inl q ↦ absurd (none≢some (ok-injective (rw q at h₁)))
          | inr ((size, r₂), q) ↦ elim (Option-cases (host.scan_float (skip_space r₂))) [
            | inl q₂ ↦ absurd (none≢some (ok-injective (rw (q, q₂) at h₁)))
            | inr ((x, r₃), q₂) ↦
                let left : line_end r₃ ≡ s =
                  ap (λ y. y.3) (some-injective (ok-injective (rw (q, q₂) at h₁))) in
                rw (← left) (
                  omega (
                    arith,
                    length-skip_space r₃,
                    reads (skip_space r₂) r₃ x q₂,
                    length-skip_space r₂,
                    scan_ull-less r₁ size r₂ q,
                    scan_word-less text word r₁ e,
                  ))
          ]
        ]
  ]

  add_movie-Shrinks :
      (s t : Stream) (ms : List Movie) (n : Next (Stream × List Movie))
      → s.eof ≡ false
      → length t.rest < length s.rest
      → add_movie host t ms ≡ ok n
      → Shrinks size (s, ms) n
  unfolding add_movie
  add_movie-Shrinks s t ms n unread shorter h =
      let (line, e, h₁) = >>=-eq-ok (scan_movie host t.rest) _ h in
      elim (Option-cases line) [
        | inl q ↦ of_ok (Shrinks size (s, ms)) refl (rw q at h₁) tt
        | inr ((name, k, d, t'), q) ↦
            let (r, made, h₂) = >>=-eq-ok (new_movie host (length ms) name k d) _ (rw q at h₁) in
            of_ok (Shrinks size (s, ms)) refl h₂ (
              appended-Shrinks s t' ms r
                (λ x. new_movie-ends host (length ms) name k d (made ∙ ap ok x))
                (λ ms'.
                  size-less s t' ms ms' unread
                    (inl (omega (arith, shorter, scan_movie-less t.rest name k d t' (rw q at e))))))
      ]

  movies_round-Shrinks :
      (s : Stream × List Movie) (n : Next (Stream × List Movie))
      → movies_round host s ≡ ok n
      → Shrinks size s n
  unfolding movies_round
  movies_round-Shrinks (s, ms) n h = elim (choice-eq-ok s.eof _ _ h) [
    | inl (e, k) ↦ of_ok (Shrinks size (s, ms)) refl k tt
    | inr (e, k) ↦ elim (Option-cases (scan_key s.rest)) [
      | inl q ↦
          of_ok (Shrinks size (s, ms)) refl (rw q at k) (size-less s at_end ms ms e (inr refl))
      | inr ((word, t), q) ↦
          let (key, copied, k₁) = >>=-eq-ok (fits 256 word) _ (rw q at k) in
          let shorter = scan_key-less s.rest word t q in
          elim (choice-eq-ok (name_eq key movie_key) _ _ k₁) [
            | inl (_, k₂) ↦ add_movie-Shrinks s t ms n e shorter k₂
            | inr (_, k₂) ↦ of_ok (Shrinks size (s, ms)) refl k₂ (
                size-less s (skip_line 255 t.rest) ms ms e
                  (inl (omega (arith, shorter, length-skip_line 255 t.rest))))
          ]
    ]
  ]

  init_movies-ends : init_movies host ≢ ok no_fuel
  unfolding init_movies
  init_movies-ends h = elim (Option-cases (host.contents config_file)) [
    | inl e ↦ cc
    | inr (text, e) ↦
        let (r, k, h₁) =
          >>=-eq-ok (loop (movies_round host) (fuel_for text) (opened text, [])) _
            (rw (init_movies, e) at h) in
        loop-ends (movies_round host) size movies_round-Shrinks (fuel_for text) (opened text, [])
          (omega arith) (k ∙ ap ok (map_ended-no_fuel (λ (s, movies). movies) r (ok-injective h₁)))
  ]

  after_disks-ends : (d : Ended Name) → init_disks host ≡ ok d → after_disks host d ≢ ok no_fuel
  after_disks-ends (ended directory) e h =
      let (r, k, h₁) = >>=-eq-ok (init_movies host) _ h in
      init_movies-ends (k ∙ ap ok (map_ended-no_fuel (disk_of host directory) r (ok-injective h₁)))
  after_disks-ends gave_up e h = cc
  after_disks-ends no_fuel e h = init_disks-ends host e

  exit_on_error-no_fuel : (r : Ended Disk) → exit_on_error r ≡ ok no_fuel → r ≡ no_fuel
  exit_on_error-no_fuel (ended d) h = cc
  exit_on_error-no_fuel gave_up h = cc
  exit_on_error-no_fuel no_fuel h = refl

  -- Flib_init comes to an end, whatever stands in the configuration and in the metadata of the movies:
  -- the fuel, two more than a file has bytes, is enough for each of its loops. Of the host it is asked
  -- that `%f` leaves no more than it gets.
  pub flib_init-ends : flib_init host ≢ ok no_fuel
  unfolding flib_init init_file_system
  flib_init-ends h =
      let (r, e, h₁) = >>=-eq-ok (init_file_system host) exit_on_error h in
      let (d, e₁, h₂) =
        >>=-eq-ok (init_disks host) (after_disks host) (e ∙ ap ok (exit_on_error-no_fuel r h₁)) in
      after_disks-ends d e₁ h₂
