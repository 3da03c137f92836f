-- ===== src/Yoko/Connect.antt =====
-- yoko_connect and yoko_disconnect of probes/libenergyyoko/yokosrv.c: what they leave open.
use Prim.Native.String.{String}
use mathlib.Core.Path.{subst}
use mathlib.Core.List.{append-nil}
use lpowerprobe.Common.{
  ℕ, ◌≡◌, refl, ◌∙◌, sym, ap, Bool, true, false, Option, none, some, List, [], ◌∷◌, ◌++◌, ◌==◌,
  ◌&&◌, ◌⊎◌, ==-refl, if◌then◌else◌, Bool-cases, Option-cases, inl, inr,
}
use lpowerprobe.Yoko.Number.{Real}
use lpowerprobe.Yoko.{
  Action, open_fd, close_fd, set_attributes, send_cmd, send_all, Termios, configured, Port,
  first_open, default_com_paths, setup_commands, Context, connect_with, yoko_connect,
  yoko_disconnect,
}

abbrev pub remove : ℕ → List ℕ → List ℕ
remove fd [] = []
remove fd (x ∷ fds) = if x == fd then fds else x ∷ remove fd fds

-- The descriptors that are open after some actions, of which `fds` are open before.
abbrev pub left_open : List Action → List ℕ → List ℕ
left_open [] fds = fds
left_open (open_fd fd ∷ actions) fds = left_open actions (fd ∷ fds)
left_open (close_fd fd ∷ actions) fds = left_open actions (remove fd fds)
left_open (set_attributes fd pset ∷ actions) fds = left_open actions fds
left_open (send_cmd fd cmd ∷ actions) fds = left_open actions fds

abbrev pub descriptors : {W : Type 0} → Option (Context W) → List ℕ
descriptors none = []
descriptors (some ctx) = ctx.fd ∷ []

left_open-send_all :
    (fd : ℕ) (cmds : List String) (rest : List Action) (fds : List ℕ)
    → left_open (send_all fd cmds ++ rest) fds ≡ left_open rest fds
left_open-send_all fd [] rest fds = refl
left_open-send_all fd (cmd ∷ cmds) rest fds = left_open-send_all fd cmds rest fds

left_open-close : (fd : ℕ) → left_open (close_fd fd ∷ []) (fd ∷ []) ≡ []
left_open-close fd = rw (==-refl fd) refl

-- The calls that set the port up.
abbrev pub all_succeed : Port → Bool
all_succeed port =
    port.cfsetispeed && (port.cfsetospeed && (port.tcsetattr && (port.tcflush && port.tcdrain)))

module _ {W : Type 0} ⦃d : Real W⦄ where
  -- The port is open as `fd`, with settings `pset`, and every call succeeds.
  pub record Connected (port : Port) (done : List Action) (result : Option (Context W))
      : Type 0 where
    pub fd : ℕ
    pub pset : Termios
    pub found : first_open port default_com_paths ≡ some fd
    pub settings : port.tcgetattr ≡ some pset
    pub calls : all_succeed port ≡ true
    pub actions :
        done ≡ open_fd fd ∷ set_attributes fd (configured pset) ∷ send_all fd setup_commands
    pub context : result ≡ some (record { fd = fd; last_e = d.nought })

  -- Something fails, and nothing stays open.
  pub record Refused (port : Port) (done : List Action) (result : Option (Context W)) : Type 0 where
    pub reason :
        (first_open port default_com_paths ≡ none)
        ⊎ ((port.tcgetattr ≡ none) ⊎ (all_succeed port ≡ false))
    pub closed : left_open done [] ≡ []
    pub no_context : result ≡ none

  connect_with_lem :
      (port : Port) (fd : ℕ) (pset : Termios)
      → ((all_succeed port ≡ true)
          × ((connect_with {W = W} port fd pset).0
              ≡ open_fd fd ∷ set_attributes fd (configured pset) ∷ send_all fd setup_commands)
          × ((connect_with {W = W} port fd pset).1 ≡ some (record { fd = fd; last_e = d.nought })))
        ⊎ ((all_succeed port ≡ false)
            × (left_open (connect_with {W = W} port fd pset).0 [] ≡ [])
            × ((connect_with {W = W} port fd pset).1 ≡ none))
  unfolding connect_with
  connect_with_lem port fd pset = elim (Bool-cases port.cfsetispeed) [
    | inr bad ↦ rw bad (inr (refl, left_open-close fd, refl))
    | inl a ↦ elim (Bool-cases port.cfsetospeed) [
      | inr bad ↦ rw (a, bad) (inr (refl, left_open-close fd, refl))
      | inl b ↦ elim (Bool-cases port.tcsetattr) [
        | inr bad ↦ rw (a, b, bad) (inr (refl, left_open-close fd, refl))
        | inl c ↦ elim (Bool-cases port.tcflush) [
          | inr bad ↦ rw (a, b, c, bad) (inr (refl, left_open-close fd, refl))
          | inl e ↦ elim (Bool-cases port.tcdrain) [
            | inr bad ↦
                rw (a, b, c, e, bad)
                  (inr (
                    refl,
                    left_open-send_all fd setup_commands (close_fd fd ∷ []) (fd ∷ [])
                        ∙ left_open-close fd,
                    refl,
                  ))
            | inl g ↦ rw (a, b, c, e, g) (inl (refl, refl, refl))
          ]
        ]
      ]
    ]
  ]

  abbrev Judged : Port → List Action × Option (Context W) → Type 0
  Judged port (done, result) = Connected port done result ⊎ Refused port done result

  yoko_connect-Judged : (port : Port) → Judged port (yoko_connect {W = W} port)
  unfolding yoko_connect
  yoko_connect-Judged port = elim (Option-cases (first_open port default_com_paths)) [
    | inl missing ↦
        let ran : yoko_connect {W = W} port ≡ ([], none) = rw (yoko_connect, missing) refl in
        subst (Judged port) (sym ran)
          (inr (record { reason = inl missing; closed = refl; no_context = refl }))
    | inr (fd, found) ↦ elim (Option-cases port.tcgetattr) [
      | inl unread ↦
          let ran : yoko_connect {W = W} port ≡ (open_fd fd ∷ close_fd fd ∷ [], none) =
            rw (yoko_connect, found, unread) refl in
          subst (Judged port) (sym ran) (
            inr (record {
              reason = inr (inl unread);
              closed = left_open-close fd;
              no_context = refl;
            }))
      | inr (pset, settings) ↦
          let ran : yoko_connect {W = W} port ≡ connect_with port fd pset =
            rw (yoko_connect, found, settings) refl in
          subst (Judged port) (sym ran) (elim (connect_with_lem port fd pset) [
            | inl (calls, actions, context) ↦ inl (record {
              fd = fd;
              pset = pset;
              found = found;
              settings = settings;
              calls = calls;
              actions = actions;
              context = context;
            })
            | inr (fails, closed, no_context) ↦
                inr (record { reason = inr (inr fails); closed = closed; no_context = no_context })
          ])
    ]
  ]

  disconnect_closes :
      (port : Port) (done : List Action) (result : Option (Context W))
      → Judged port (done, result)
      → left_open (done ++ yoko_disconnect result) [] ≡ []
  unfolding yoko_disconnect
  disconnect_closes port done result (inl c) =
      rw (c.actions, c.context)
        (left_open-send_all c.fd setup_commands (close_fd c.fd ∷ []) (c.fd ∷ [])
          ∙ left_open-close c.fd)
  disconnect_closes port done result (inr r) =
      rw r.no_context (ap (λ actions. left_open actions []) (append-nil done) ∙ r.closed)

  -- On every port: `yoko_connect` either gives a context, when one of the two paths opens, its settings
  -- can be read and all further calls succeed, and has then opened the port, configured it and sent the
  -- commands of the setup, each once and in order; or it gives a null pointer, when one of these fails,
  -- and has closed what it has opened. After `yoko_disconnect` nothing is open in either case.
  pub connect_lem :
      (port : Port)
      → let (done, result) = yoko_connect {W = W} port in
        (Connected port done result ⊎ Refused port done result)
        × (left_open (done ++ yoko_disconnect result) [] ≡ [])
  connect_lem port =
      let judged = yoko_connect-Judged port in (judged, disconnect_closes port _ _ judged)
