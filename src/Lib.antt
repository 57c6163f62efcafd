-- ===== src/Lib.antt =====
-- go-attestation: the attestation of a machine by its TPM, and what is read out of its measurement
-- log.
--
-- On the machine the program reads the platform configuration registers (PCRs) of the TPM, has them
-- quoted with an attestation key and collects this with the log of the boot (attest/tpm.go). A
-- server activates the key, so that it is known to be in a TPM (attest/activation.go), checks the
-- quotes (attest/attest.go), parses the log and replays it against the registers
-- (attest/eventlog.go), and gives the events that the registers vouch for to readers that interpret
-- them (attest/secureboot.go, attest/win_events.go).
--
-- Base holds the helpers on lists, numbers and Booleans. Runtime holds what the program takes from
-- Go: Runtime/Result is a call that gives a value, an error or a panic, Runtime/Endian fixed-size
-- little-endian and big-endian integers, Runtime/Reader `bytes.Buffer` and `bytes.Reader` as the
-- bytes that are left, with `io.ReadFull` and `binary.Read`. Hash is `HashAlg` of attest/attest.go
-- and `crypto.Hash`.
--
-- EventLog is attest/eventlog.go and attest/eventlog_workarounds.go: EventLog/Parse `ParseEventLog`
-- (Parse/Events: `parseRawEvent`, `parseRawEvent2`; Parse/SpecId: `parseSpecIDEvent`),
-- EventLog/Append `AppendEvents`, EventLog/Replay `extend`, `replayPCR` and `replayEvents`,
-- EventLog/Verify `EventLog.Verify` with the workarounds. The modules below these hold the proofs:
-- Parse/Reads, Parse/Agile and Parse/Runs say what the readers and the loop take, Parse/Log takes a
-- log apart, Parse/Total puts this together; Append/Algs, Append/Event and Append/Logs read back
-- what is written; Replay/Expected says which events a register measured, and Replay/Register,
-- Replay/Binding and Replay/Outcome are the specification of the replay; Replay/Items says which
-- events a replay puts out, Replay/Ascending how those of the registers are put together and
-- sorted, and Replay/Winner which register counts for an index, from which Replay/Order says what
-- the order of a map does and Replay/Vouched what an event rests on; Verify/Added says what a
-- workaround adds, Verify/Outcome is the specification of `Verify`, and Verify/Order is on the same
-- orders in it. EventLog/Tests and EventLog/OrderTests, and Quote/LogTests with a quote, run the
-- definitions on a small log.
--
-- Uefi is attest/internal/events.go: Uefi/EventType `UntrustedParseEventType`, Uefi/Variable
-- `ParseUEFIVariableData`, Uefi/Signatures the signature lists and authorities, Uefi/DevicePath the
-- image loads and device paths. `x509.ParseCertificate` is a parameter, a function from bytes to a
-- certificate or none. SecureBoot is attest/secureboot.go: SecureBoot/Scan has the loop of
-- `ParseSecurebootState` with the variables of the loop as a record and one function for each case
-- of its switches; SecureBoot/Steps is a step relation for the loop with its runs, SecureBoot/Runs
-- shows that the loop is a run, and from this SecureBoot/Accepted, SecureBoot/Policy and
-- SecureBoot/Names derive what accepted events have in common; SecureBoot/Drivers is the origin of
-- drivers; SecureBoot/Total and Uefi/Total, Uefi/Signatures/Total are on how the code ends;
-- Uefi/Variable/RoundTrip reads a variable back from its bytes.
--
-- WinEvents is attest/win_events.go, `ParseWinEvents`, with `ParseTaggedEventData` of
-- attest/internal/events.go. WinEvents/Stream is the state of its readers: the `WinEvents` that
-- they change, the bytes that are left, and the count of an `io.LimitedReader`; a reader that fails
-- leaves what it has changed, since the ELAM aggregations go on after an error inside.
-- WinEvents/Values has the events of one value, WinEvents/Modules `readLoadedModuleAggregation`,
-- WinEvents/Elam `readELAMAggregation`, WinEvents/Scan `readSIPAEvent`, `readWinEventBlock` and the
-- loop over the events. WinEvents/Items describes a log without the code: the SIPA events that its
-- tagged events hold, and the attributes as functions of the list of these; WinEvents/Loads the
-- loaded modules of the list. Took, Ends, Reads, Fields and Aggregations are the rules by which a
-- reader ends and goes on by the size of its event; Told and ModuleTold say what is read of a
-- loaded module; Effects, Handlers, Flags, Handled, Accept and Event say what each event changes;
-- Block, Steps, Log and Reading put this together; Separators, Policy and Total are on the loop
-- over the events.
--
-- Quote is the check of quotes, `ParseAKPublic` (Quote/Public), `AKPublic.Verify` and `VerifyAll`
-- of attest/attest.go with `validate12Quote` and `validate20Quote` of attest/eventlog.go; the slice
-- of registers that the code marks in place is passed on from quote to quote. Quote/Selection says
-- which values a selection stands for and which registers it marks; Quote/Accepts describes what is
-- accepted of a TPM 2.0 and Quote/Accepts12 of a TPM 1.2, with the bitmap of the registers in
-- Quote/Mask; Quote/Binding says what a quote fixes, Quote/Logs what it fixes of a log,
-- Quote/Quoted says that the registers' values are the quoted ones, Quote/Vouched is the check of
-- quotes and the replay of a log together, Quote/Banks what of the registers a quote's check looks
-- at, Quote/Several a check of several banks, and Quote/Covered what `VerifyAll` leaves its caller
-- with (Quote/Coverage for quotes of version 2.0 alone, both from Quote/Marks). The signature check
-- and the decoders of go-tpm are parameters (`Tpm`).
--
-- Certification is `CertificationParameters.Verify` of attest/certification.go, with the decoders
-- of go-tpm, the comparison of names and the signature check as parameters (`CertifyLib`);
-- Certification/Certified describes what it accepts.
--
-- Activation is attest/activation.go: `ActivationParameters.Generate`, which checks an attestation
-- key and makes the challenge that shows that the key is in the TPM of the given endorsement key.
-- Activation/Checks has what each part of the check of a TPM 2.0 key accepts, Activation/Trusted
-- the whole check, Activation/Generated what `Generate` makes, Activation/Total how it ends. The
-- decoders of go-tpm, `credactivation.Generate`, `GenerateChallengeEx` of go-tspi, the RSA check
-- and `rand.Reader` are parameters (`ActivationLib`). Challenge is attest/challenge.go, the
-- challenge for a TPM 1.2; RSA-OAEP and AES are parameters (`Ciphers`), and Challenge/Blobs and
-- Challenge/Padding are readers for what it writes, written from the TPM's structures.
-- Challenge/Opens and Activation/Opens put these together as the TPM that opens the challenge, for
-- a decryption that undoes the encryption (`Inverts`). Where the code follows a pointer that may be
-- nil the model panics.
--
-- Device is the part of attest/tpm.go for any TPM: `AttestPlatform` with `attestPlatform`,
-- `attestPCRs` and `MeasurementLog`, `readAllPCRs20` and `ParseEKCertificate`. The interfaces
-- `tpmBase` and `ak` are records of functions on the state of a device, which each call may change,
-- and so is `tpm2.ReadPCRs`; `x509.ParseCertificate` and the first element that encoding/asn1 finds
-- are parameters. Device/Attested is on the platform's parameters, Device/Banks and Device/Accepted
-- on their check by `VerifyAll`, Device/Failed on the errors, Device/Missing and Device/Registers
-- on the loop over partial answers, Device/Certificates on the header that a certificate in NVRAM
-- may have.
--
-- Numbers. A Go integer is a natural number; the cuts of the conversions (`uint32(…)`, `uint16(…)`,
-- `HashAlg(…)`) are written out. `int` has 64 bits, as on the platforms that TPMs are in, so that
-- the 32-bit fields of the formats fit. The index of a PCR is an `int` of the caller and is taken
-- to be 0 or more.
--
-- Loops. The loop of `ParseEventLog`, those over signature lists and signatures and that over a
-- device path run on fuel, the number of bytes that are left: each round takes at least one byte,
-- so that this is enough. So do the loops of WinEvents, where each aggregation inside another takes
-- the bytes of a header too. All other loops are over lists or a count of rounds.
--
-- Parameters. The hash functions that are linked into the program (`Hashes`, with the documented
-- properties `IsHashes`: each has a positive size and gives that many bytes), the order in which
-- `range` goes over a map and what `sort.Slice` makes of events with one number (`Env`, with
-- `IsEnv`: each key is visited, or with `IsOrdering`: each once, and the same events come out of
-- the sort, no number before a smaller one). The algorithm numbers of go-tpm are those of the TCG
-- registry. The text of an error is not modelled; which error it is is.
--
-- Not modelled: the implementations of devices and keys of a TPM, the attribute certificates and
-- the X.509 extensions, and the command line tool.
pub mod Base
pub mod Runtime
pub mod Hash
pub mod EventLog
pub mod Uefi
pub mod SecureBoot
pub mod WinEvents
pub mod Quote
pub mod Certification
pub mod Challenge
pub mod Activation
pub mod Device
