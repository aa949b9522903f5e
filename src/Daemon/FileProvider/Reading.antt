-- ===== src/Daemon/FileProvider/Reading.antt =====
-- Reading a whole file by `Read` requests (src/daemon/engine/cyphal/file_provider.cpp).
use ocvsmd.Common.{
  ℕ, zero, suc, ◌+◌, ◌-◌, ◌≤◌, ◌<◌, min, ◌≡◌, ◌≢◌, refl, ap, sym, ◌∙◌, Option, none, some, List, [],
  ◌∷◌, ◌++◌, arith, leb, inl, inr, Bool-cases, leb→le, if_cases, drop-drop, drop-of_length-le,
  Option-cases, length, take, drop, length-take, length-drop, take-append-drop,
}
use ocvsmd.Daemon.FileProvider.Paths.{FilePath}
use ocvsmd.Daemon.FileProvider.{
  Provider, FileSystem, Found, ReadResult, bytes, failure, ok, ReadResponse, find_first_valid_file,
  read_chunk, response_of, serve_read_request,
}

-- The file at a path holds `content` and does not change: `stat` tells its size, and a read within
-- it gets its bytes.
pub record Holds (fs : FileSystem) (f : Found) (content : List ℕ) : Type 0 where
  pub size : f.stat.st_size ≡ length content
  pub reads :
      (offset n : ℕ)
      → offset + n ≤ length content
      → fs.read f.path offset n ≡ bytes (take n (drop offset content))

module _ (fs : FileSystem) (max_data_size : ℕ) where
  -- No more bytes than fit, and none with an error.
  abbrev IsSound : ReadResponse → Type 0
  IsSound r = (length r.value ≤ max_data_size) × (r.error ≢ ok → r.value ≡ [])

  response_of-IsSound :
      (o : ReadResult)
      → ((bs : List ℕ) → o ≡ bytes bs → length bs ≤ max_data_size)
      → IsSound (response_of fs o)
  response_of-IsSound (bytes bs) h = (h bs refl, λ k. absurd (k refl))
  response_of-IsSound (failure code) h = (omega arith, λ k. refl)

  -- A `Read` response carries at most the bytes that fit, and an error carries none, whatever the
  -- offset and the file system, as long as the latter returns no more bytes than are asked for.
  pub serve_read_request_bounds :
      (p : Provider) (request : FilePath) (offset : ℕ)
      → ((path : FilePath) (off n : ℕ) (bs : List ℕ)
          → fs.read path off n ≡ bytes bs
          → length bs ≤ n)
      → (length (serve_read_request fs max_data_size p request offset).value ≤ max_data_size)
        × ((serve_read_request fs max_data_size p request offset).error ≢ ok
            → (serve_read_request fs max_data_size p request offset).value ≡ [])
  unfolding serve_read_request read_chunk
  serve_read_request_bounds p request offset short =
      elim (Option-cases (find_first_valid_file fs p.roots request)) [
        | inl e ↦ rw (e) (omega arith, λ k. refl)
        | inr (f, e) ↦ rw e (
            if_cases IsSound (leb f.stat.st_size offset) (λ _. (omega arith, λ k. refl))
              (λ _.
                response_of-IsSound
                  (fs.read f.path offset (min (f.stat.st_size - offset) max_data_size))
                  (λ bs x. omega (
                    arith,
                    short f.path offset (min (f.stat.st_size - offset) max_data_size) bs x,
                  ))))
      ]

-- A client's loop: requests at the offset reached, until an answer has no bytes. `none` where the
-- fuel runs out.
abbrev and_then : List ℕ → Option (List ℕ) → Option (List ℕ)
and_then [] rest = some []
and_then (b ∷ bs) none = none
and_then (b ∷ bs) (some more) = some ((b ∷ bs) ++ more)

unfoldable pub read_file : FileSystem → ℕ → Provider → FilePath → ℕ → ℕ → Option (List ℕ)
read_file fs max_data_size p request zero offset = none
read_file fs max_data_size p request (suc fuel) offset =
    let value = (serve_read_request fs max_data_size p request offset).value in
    let rest = read_file fs max_data_size p request fuel (offset + length value) in
    and_then value rest

and_then-append : (xs ys : List ℕ) → 0 < length xs → and_then xs (some ys) ≡ some (xs ++ ys)
and_then-append [] ys h = elim h [ ]
and_then-append (x ∷ xs) ys h = refl

module _ (fs : FileSystem) (max_data_size : ℕ) (p : Provider) (request : FilePath) (f : Found)
    (content : List ℕ) (room : 0 < max_data_size)
    (found : find_first_valid_file fs p.roots request ≡ some f) (holds : Holds fs f content) where
  served :
      (offset : ℕ)
      → (serve_read_request fs max_data_size p request offset).value
        ≡ take (min (length content - offset) max_data_size) (drop offset content)
  unfolding serve_read_request read_chunk
  served offset = elim (Bool-cases (leb f.stat.st_size offset)) [
    | inl past ↦
        let z : min (length content - offset) max_data_size ≡ 0 =
          omega (arith, leb→le _ _ past, holds.size) in
        rw (found, past, z) refl
    | inr more ↦
        let n = min (f.stat.st_size - offset) max_data_size in
        let n_eq : n ≡ min (length content - offset) max_data_size = omega (arith, holds.size) in
        let within : offset + n ≤ length content = ground (arith, holds.size, more) in
        rw (found, more)
          (ap (λ o. (response_of fs o).value) (holds.reads offset n within)
            ∙ ap (λ k. take k (drop offset content)) n_eq)
  ]

  read_file-from :
      (fuel offset : ℕ)
      → length content < offset + fuel
      → offset ≤ length content
      → read_file fs max_data_size p request fuel offset ≡ some (drop offset content)
  unfolding read_file
  read_file-from zero offset h k = absurd (omega arith)
  read_file-from (suc fuel) offset h k =
      let n = min (length content - offset) max_data_size in
      let chunk = take n (drop offset content) in
      let size : length chunk ≡ n =
        omega (arith, length-take n (drop offset content), length-drop offset content) in
      ap (λ v. and_then v (read_file fs max_data_size p request fuel (offset + length v)))
        (served offset)
      ∙ (elim (Bool-cases (leb (length content) offset)) [
        | inl all_read ↦
            let z : n ≡ 0 = omega (arith, leb→le _ _ all_read) in
            rw z (ap some (sym (drop-of_length-le offset content (leb→le _ _ all_read))))
        | inr more ↦
            let left : offset < length content = ground arith in
            let rest =
              read_file-from fuel (offset + length chunk) (omega (arith, size, room))
                (omega (arith, size)) in
            ap (and_then chunk) rest
            ∙ and_then-append chunk _ (omega (arith, size, room))
            ∙ ap some (
                ap (λ d. chunk ++ d)
                  (ap (λ k. drop k content) (ap (λ k. offset + k) size)
                    ∙ sym (drop-drop offset n content))
                ∙ take-append-drop n (drop offset content))
      ])

  -- The requests of a client that reads on from where it got to return, put together, exactly the
  -- bytes of the first file that the search finds, and come to an end within one request more than
  -- the file has bytes. The file is taken not to change while it is read.
  pub read_file_lem : read_file fs max_data_size p request (suc (length content)) 0 ≡ some content
  read_file_lem = read_file-from (suc (length content)) 0 (omega arith) (omega arith)
