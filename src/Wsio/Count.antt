-- ===== src/Wsio/Count.antt =====
-- Counting what src/wsio.c owes its user and what it has done.
use azure_c_shared_utility.Base.{
  ℕ, suc, ◌+◌, ◌≡◌, ◌∙◌, ap, Option, none, some, List, [], ◌∷◌, ◌++◌, ◌==◌, if◌then◌else◌, arith,
}
use azure_c_shared_utility.Wsio.{
  IoState, io_opening, Event, open_completed, received, error_indicated, send_completed,
  close_completed, Pending,
}

-- How often a callback with context `c` is meant.
abbrev pub times : ℕ → Option ℕ → ℕ
times c none = 0
times c (some context) = if context == c then 1 else 0

abbrev pub due : ℕ → List Pending → ℕ
due c [] = 0
due c (p ∷ ps) = times c p.callback + due c ps

-- How often on_send_complete was called with context `c`.
abbrev pub completed : ℕ → List Event → ℕ
completed c [] = 0
completed c (send_completed context result ∷ es) = times c (some context) + completed c es
completed c (open_completed h result ∷ es) = completed c es
completed c (received h bytes ∷ es) = completed c es
completed c (error_indicated h ∷ es) = completed c es
completed c (close_completed context ∷ es) = completed c es

-- How often on_io_open_complete was called.
abbrev pub opened : List Event → ℕ
opened [] = 0
opened (open_completed h result ∷ es) = suc (opened es)
opened (send_completed context result ∷ es) = opened es
opened (received h bytes ∷ es) = opened es
opened (error_indicated h ∷ es) = opened es
opened (close_completed context ∷ es) = opened es

abbrev pub opening : IoState → ℕ
opening io_opening = 1
opening _ = 0

pub completed-append :
    (c : ℕ) (xs ys : List Event) → completed c (xs ++ ys) ≡ completed c xs + completed c ys
completed-append c [] ys = omega arith
completed-append c (send_completed context result ∷ es) ys = omega (arith, completed-append c es ys)
completed-append c (open_completed h result ∷ es) ys = completed-append c es ys
completed-append c (received h bytes ∷ es) ys = completed-append c es ys
completed-append c (error_indicated h ∷ es) ys = completed-append c es ys
completed-append c (close_completed context ∷ es) ys = completed-append c es ys

pub opened-append : (xs ys : List Event) → opened (xs ++ ys) ≡ opened xs + opened ys
opened-append [] ys = omega arith
opened-append (open_completed h result ∷ es) ys = ap suc (opened-append es ys) ∙ omega arith
opened-append (send_completed context result ∷ es) ys = opened-append es ys
opened-append (received h bytes ∷ es) ys = opened-append es ys
opened-append (error_indicated h ∷ es) ys = opened-append es ys
opened-append (close_completed context ∷ es) ys = opened-append es ys

pub due-append : (c : ℕ) (xs ys : List Pending) → due c (xs ++ ys) ≡ due c xs + due c ys
due-append c [] ys = omega arith
due-append c (p ∷ xs) ys = omega (arith, due-append c xs ys)
