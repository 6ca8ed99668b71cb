-- ===== src/Lib.antt =====
-- stprov provisions the platforms of System Transparency. The operator's program, `stprov local`,
-- and the one on the platform, `stprov remote`, share a one-time password. The remote one serves
-- HTTPS with a certificate and credentials that are derived from it; the local one sends entropy and
-- a time, Secure Boot keys if there are any, and a commit; the remote one mixes the entropy into a
-- unique device secret, answers with the SSH host key that the secret determines, and writes that
-- key to an EFI variable.
--
-- Texts and byte slices are lists of numbers, int64 is a signed number, a Go `(value, error)` is a
-- `Result`, and code that writes EFI variables, reads randomness or talks to the other end is a
-- function of a state that returns the state beside the result, after an error too. Each package
-- that is not part of the repository is a parameter: `Efi` (efivarfs, uuid), `Crypto` (HKDF,
-- crypto/rand, x509, golang.org/x/crypto/ssh, PEM), `Net` (text of addresses), `Json`, `Host`
-- (stboot), `Transport` (net/http of the client), `Link` (the wire), `Netlink` (netlink, ping,
-- net.Interfaces, /sys/class/net), `Stboot` (the configuration and the set-up of stboot), `Heads` (the
-- HEAD requests). What they are relied on for is named: `IsStore`, `IsWireFormat`, `IsReadFull`,
-- `IsJson`, `IsHost`, `IsKernel`. Examples/ instantiates all of them.
--
-- The files:
--   * Sb.antt: internal/sb/sb.go (efi_read is efiRead, is_setup_mode is IsSetupMode, provision is
--     Provision, request_reboot_into_uefi_menu is RequestRebootIntoUEFIMenu).
--   * Ssh.antt: internal/ssh/ssh.go (new_host_key, write, write_pem, read, write_efi, add_pad). The
--     loop of addPad has fuel for eight rounds; Ssh/Padding.antt shows that its own test ends it.
--   * Secrets.antt: internal/secrets/secrets.go.
--   * St.antt: internal/st/st.go (write_host_config, host_config, write_host_name, read_host_name).
--   * Api.antt, Api/Server.antt, Api/Handler.antt, Api/Client.antt: internal/api/api.go, server.go,
--     handler.go and client.go. `World` is the server with the EFI variables, crypto/rand and the
--     response; serve_http is ServeHTTP, serve the mux of Run. Api/Provisioning.antt is an
--     abstract machine, of what is contributed and of the secret, which is not in the source. The
--     other files of Api/ hold proofs: Access (who is served), Handling and Commit (the handler
--     functions), Keeps, Invariant and Frame (sequences of requests), Refinement (the abstract
--     machine), Exchange, Answer and Keys (client and server together), Response
--     (no request reads what was written to the response before it).
--   * Api/Lifecycle.antt: Run and await of internal/api/server.go once more, with the goroutines of the
--     requests, as a step relation. The context of Run is never done, as in subcmd/remote/run/run.go.
--   * Options.antt, Options/SliceFlag.antt, Options/Flags.antt (New and the Add functions),
--     Options/Interfaces.antt (DefaultInterfaces): internal/options/options.go.
--   * Hexify.antt: internal/hexify/hexify.go. The number of rounds is the loop's own bound.
--   * Network.antt: linksByDescendingSpeed and speedToStr of internal/network; Network/Interfaces.antt
--     (for_each_interface is ForEachInterface, reset_interfaces is ResetInterfaces), Network/Testing.antt
--     (TestInterfaces): network.go; Network/Device.antt: device.go. Network/Netlink.antt is
--     the parameter. A callback that sets variables of the function around it has them in its state.
--   * Net.antt: what the code uses of Go's net and math/big. int_bytes has the number itself as
--     fuel, which is more than the number of its bytes.
--   * Remote/Main.antt and Remote/Main/Commands.antt: subcmd/remote/remote.go, up to the commands, and
--     the commands on a `Machine`; Remote/Commit.antt: commitConfig and checkURL of that file,
--     and NewClient of internal/network/client.go.
--   * Remote/Static.antt: subcmd/remote/static/static.go. Remote/Dhcp.antt: subcmd/remote/dhcp/dhcp.go.
--     Remote/Config.antt is the parameter for stboot.
--   * Cmd.antt: cmd/stprov/main.go. Local/Main.antt: subcmd/local/local.go.
--     Cmd/Exits.antt is about both.
--   * Local/Run.antt: subcmd/local/run/run.go. Remote/Run.antt: subcmd/remote/run/run.go; its
--     `Session` holds what happens while the server listens, and `main` is none as long as no commit
--     has arrived. A nil pointer that is dereferenced is an error value.
--   * Together.antt and Together/: `stprov local run` against `stprov remote run`. `recorded` is the
--     connection that also keeps the requests as they arrive; it is not in the source.
--   * Prelude.antt: texts, lists, bits, results and actions.
--   * Examples.antt: the concrete libraries and the examples.
--
-- Not modelled: log lines; deadlines and timeouts; TLS; requests that are handled at the same time
-- (they come one after the other, but for the commits of Api/Lifecycle.antt); the parsing of the
-- command line, which is package flag's, and the usage texts; the goroutine that stops a pinger.
pub mod Api
pub mod Cmd
pub mod Crypto
pub mod Efi
pub mod Examples
pub mod Hexify
pub mod Local
pub mod Net
pub mod Network
pub mod Options
pub mod Prelude
pub mod Remote
pub mod Sb
pub mod Secrets
pub mod Ssh
pub mod St
pub mod Together
