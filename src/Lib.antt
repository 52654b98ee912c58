-- ===== src/Lib.antt =====
-- exnode, the node agent of a WireGuard panel: what its Go code computes and how it changes the node.
--
-- The agent asks the panel for the state that the node should have and brings the node there. The
-- controller (node/controller.go) sends heartbeats; where the revision changed it fetches the whole
-- state, hands the interfaces to a datapath engine (engine/), and puts overlay links
-- (overlay/overlay.go), NAT (wg/nat.go), policy routes (wg/policy.go) and the operator's custom
-- entries (extras/extras.go) in place. A heartbeat may also order an upgrade of the agent itself
-- (selfupdate/selfupdate.go).
--
-- The files, by the code that they model:
--   Base, Text    shared notation and lemmas, and Go's functions on texts (strings, strconv)
--   Host          the machine: commands that run, files that are read and written, and what iptables
--                 does to its chains; Host.Toy is a machine of tables and chains for the tests
--   Panel         panel/client.go: the messages (Panel) and the client (Panel.Client)
--   Main          main.go, from the arguments to the start of the controllers
--   Conf          conf/conf.go (Conf, Conf.Load) and conf/crypto.go (Conf.Crypto), with the helpers of
--                 main.go that encrypt and decrypt the file and pick the options of sing-box
--   Node          node/controller.go: toEngineInterface and overlayConfigs (Node), ensureEngine,
--                 ensureNAT, ensureExtras, sync, heartbeatTick and policyWatchdogTick
--                 (Node.Control), statusTick, Close and Run (Node.Run), NewController and what
--                 it asks of the machine (Node.Start)
--   SelfUpdate    selfupdate/selfupdate.go: versions (SelfUpdate), download and swap
--                 (SelfUpdate.Swap), Maybe, adopt and Watch (SelfUpdate.Attempt)
--   Engine        engine/kernel.go, engine/engine.go (Engine.Controlled), and
--                 engine/singbox.go (Engine.Rendered, Engine.Singbox)
--   Installer     singbox/singbox.go: extractBinary (Installer.Archive), latestVersion and install
--                 (Installer.Install), Usable and Ensure (Installer.Ensure)
--   Storage       files that are written beside their place and moved there
--   Wg            wg/engine.go: the data (Wg), the change of a device's peers (Wg.Device), and the
--                 operations on links and devices (Wg.Kernel); Wg.Nat wg/nat.go; Wg.Policy
--                 wg/policy.go; Wg.Rules the rules of iptables that both of them run
--   Overlay       overlay/overlay.go: configuration and plan (Overlay), the words of the commands
--                 (Overlay.Commands), Ensure and Remove (Overlay.Apply), SelfCheck and Reconcile
--                 (Overlay.Check)
--   Extras        extras/extras.go: the parsers (Extras) and the operations (Extras.Apply), with an
--                 iptables that knows several spellings of a rule (Extras.Spellings)
--   Tests         runs on concrete inputs
-- A function has its name in snake case. Where a file has child modules, the definitions stand in
-- the file and the proofs in the children.
--
-- How the code is read. A call that acts on the machine takes its state and returns the state
-- afterwards; an error is `none`, `false` or a constructor; texts of errors and of log lines are
-- left out, except where a decision depends on them. `int` is an integer without bounds, but what
-- comes from outside and is computed with wraps around at 64 bits: a part of a version, which is
-- read digit by digit, and seconds that are turned into nanoseconds. Times are counted in
-- nanoseconds, and one call sees one time. Go's maps are association lists, and a loop over one
-- takes the order of the list it was filled from. The loops of the agent run in one goroutine, so
-- its locks are not modelled.
--
-- Parameters: the commands `ip` and `iptables` and the files under /proc (Host.Host, with the
-- documented effect of iptables in Host.Iptables for rules in the agent's own words, and in
-- Extras.Spellings for the operator's lines, where a rule has several spellings), the net package,
-- netlink and wgctrl (Wg.Network, Wg.Kernel, with what they do to links in Wg.Kernel.LinkTable),
-- keys and address texts (Wg.Device.Formats), the engines behind engine.Engine
-- (Node.Control.Engines), os, os/exec, net/http and syscall of the upgrade (SelfUpdate.Platform,
-- with the effect on files in SelfUpdate.Swap.Files), the same of the installer with gzip, tar and
-- JSON (Installer.Platform, with the effect on files in Storage.Documented), net/url, HTTP and
-- JSON of the panel's client (Panel.Client.Web), YAML, scrypt, AES-GCM and base64
-- (Conf.Crypto.Ciphers and the arguments of Conf.Load), and the JSON encoder and the process of
-- sing-box (Engine.Singbox.Processes).
--
-- Bounds: the loops that delete copies of a rule make at most 8 rounds, as in the code; decimal
-- printing has as many steps as the number, which is more than its digits.
--
-- Not modelled: the goroutines and signals around the controllers (main.go), the HTTP clients with
-- their timeouts, the modes of files, and what is only logged.
pub mod Base
pub mod Conf
pub mod Engine
pub mod Extras
pub mod Host
pub mod Installer
pub mod Main
pub mod Node
pub mod Overlay
pub mod Panel
pub mod SelfUpdate
pub mod Storage
pub mod Tests
pub mod Text
pub mod Wg
