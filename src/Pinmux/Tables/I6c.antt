-- ===== src/Pinmux/Tables/I6c.antt =====
-- src/hal/sstar_reginfo.h: the registers of `I6C_regs`, in its order.
use ipctool.Base.{List, [], ◌∷◌, ◌≡◌, refl, true}
use ipctool.Pinmux.Register.{Register, muxctrl, proper}

pub i6c_regs : List Register
i6c_regs =
    muxctrl 0x1F207C00 ("PAD_SD1_IO1" ∷ [])
    ∷ muxctrl 0x1F207C04 ("PAD_SD1_IO0" ∷ [])
    ∷ muxctrl 0x1F207C08 ("PAD_SD1_IO5" ∷ [])
    ∷ muxctrl 0x1F207C0C ("PAD_SD1_IO4" ∷ [])
    ∷ muxctrl 0x1F207C10 ("PAD_SD1_IO3" ∷ [])
    ∷ muxctrl 0x1F207C14 ("PAD_SD1_IO2" ∷ [])
    ∷ muxctrl 0x1F207C18 ("PAD_SD1_IO6" ∷ [])
    ∷ muxctrl 0x1F207C1C ("PAD_UART1_RX" ∷ [])
    ∷ muxctrl 0x1F207C20 ("PAD_UART1_TX" ∷ [])
    ∷ muxctrl 0x1F207C24 ("PAD_SPI0_CZ" ∷ [])
    ∷ muxctrl 0x1F207C28 ("PAD_SPI0_CK" ∷ [])
    ∷ muxctrl 0x1F207C2C ("PAD_SPI0_DI" ∷ [])
    ∷ muxctrl 0x1F207C30 ("PAD_SPI0_DO" ∷ [])
    ∷ muxctrl 0x1F207C34 ("PAD_PWM0" ∷ [])
    ∷ muxctrl 0x1F207C38 ("PAD_PWM1" ∷ [])
    ∷ muxctrl 0x1F207C3C ("PAD_SD_CLK" ∷ [])
    ∷ muxctrl 0x1F207C40 ("PAD_SD_CMD" ∷ [])
    ∷ muxctrl 0x1F207C44 ("PAD_SD_D0" ∷ [])
    ∷ muxctrl 0x1F207C48 ("PAD_SD_D1" ∷ [])
    ∷ muxctrl 0x1F207C4C ("PAD_SD_D2" ∷ [])
    ∷ muxctrl 0x1F207C50 ("PAD_SD_D3" ∷ [])
    ∷ muxctrl 0x1F207C54 ("PAD_USB_CID" ∷ [])
    ∷ muxctrl 0x1F207C58 ("PAD_PM_SD_CDZ" ∷ [])
    ∷ muxctrl 0x1F207C5C ("PAD_PM_IRIN" ∷ [])
    ∷ muxctrl 0x1F207C64 ("PAD_PM_UART_RX" ∷ [])
    ∷ muxctrl 0x1F207C68 ("PAD_PM_UART_TX" ∷ [])
    ∷ muxctrl 0x1F207C6C ("PAD_PM_GPIO0" ∷ [])
    ∷ muxctrl 0x1F207C70 ("PAD_PM_GPIO1" ∷ [])
    ∷ muxctrl 0x1F207C74 ("PAD_PM_GPIO2" ∷ [])
    ∷ muxctrl 0x1F207C78 ("PAD_PM_GPIO3" ∷ [])
    ∷ muxctrl 0x1F207C7C ("PAD_PM_GPIO4" ∷ [])
    ∷ muxctrl 0x1F207C80 ("PAD_PM_GPIO7" ∷ [])
    ∷ muxctrl 0x1F207C84 ("PAD_PM_GPIO8" ∷ [])
    ∷ muxctrl 0x1F207C88 ("PAD_PM_GPIO9" ∷ [])
    ∷ muxctrl 0x1F207C8C ("PAD_PM_SPI_CZ" ∷ [])
    ∷ muxctrl 0x1F207C90 ("PAD_PM_SPI_DI" ∷ [])
    ∷ muxctrl 0x1F207C94 ("PAD_PM_SPI_WPZ" ∷ [])
    ∷ muxctrl 0x1F207C98 ("PAD_PM_SPI_DO" ∷ [])
    ∷ muxctrl 0x1F207C9C ("PAD_PM_SPI_CK" ∷ [])
    ∷ muxctrl 0x1F207CA0 ("PAD_PM_SPI_HLD" ∷ [])
    ∷ muxctrl 0x1F207CA4 ("PAD_PM_LED0" ∷ [])
    ∷ muxctrl 0x1F207CA8 ("PAD_PM_LED1" ∷ [])
    ∷ muxctrl 0x1F207CC4 ("PAD_FUART_RX" ∷ [])
    ∷ muxctrl 0x1F207CC8 ("PAD_FUART_TX" ∷ [])
    ∷ muxctrl 0x1F207CCC ("PAD_FUART_CTS" ∷ [])
    ∷ muxctrl 0x1F207CD0 ("PAD_FUART_RTS" ∷ [])
    ∷ muxctrl 0x1F207CD4 ("PAD_GPIO0" ∷ [])
    ∷ muxctrl 0x1F207CD8 ("PAD_GPIO1" ∷ [])
    ∷ muxctrl 0x1F207CDC ("PAD_GPIO2" ∷ [])
    ∷ muxctrl 0x1F207CE0 ("PAD_GPIO3" ∷ [])
    ∷ muxctrl 0x1F207CE4 ("PAD_GPIO4" ∷ [])
    ∷ muxctrl 0x1F207CE8 ("PAD_GPIO5" ∷ [])
    ∷ muxctrl 0x1F207CEC ("PAD_GPIO6" ∷ [])
    ∷ muxctrl 0x1F207CF0 ("PAD_GPIO7" ∷ [])
    ∷ muxctrl 0x1F207CF4 ("PAD_GPIO14" ∷ [])
    ∷ muxctrl 0x1F207CF8 ("PAD_GPIO15" ∷ [])
    ∷ muxctrl 0x1F207CFC ("PAD_I2C0_SCL" ∷ [])
    ∷ muxctrl 0x1F207D00 ("PAD_I2C0_SDA" ∷ [])
    ∷ muxctrl 0x1F207D04 ("PAD_I2C1_SCL" ∷ [])
    ∷ muxctrl 0x1F207D08 ("PAD_I2C1_SDA" ∷ [])
    ∷ muxctrl 0x1F207D0C ("PAD_SR_IO00" ∷ [])
    ∷ muxctrl 0x1F207D10 ("PAD_SR_IO01" ∷ [])
    ∷ muxctrl 0x1F207D14 ("PAD_SR_IO02" ∷ [])
    ∷ muxctrl 0x1F207D18 ("PAD_SR_IO03" ∷ [])
    ∷ muxctrl 0x1F207D1C ("PAD_SR_IO04" ∷ [])
    ∷ muxctrl 0x1F207D20 ("PAD_SR_IO05" ∷ [])
    ∷ muxctrl 0x1F207D24 ("PAD_SR_IO06" ∷ [])
    ∷ muxctrl 0x1F207D28 ("PAD_SR_IO07" ∷ [])
    ∷ muxctrl 0x1F207D2C ("PAD_SR_IO08" ∷ [])
    ∷ muxctrl 0x1F207D30 ("PAD_SR_IO09" ∷ [])
    ∷ muxctrl 0x1F207D34 ("PAD_SR_IO10" ∷ [])
    ∷ muxctrl 0x1F207D38 ("PAD_SR_IO11" ∷ [])
    ∷ muxctrl 0x1F207D3C ("PAD_SR_IO12" ∷ [])
    ∷ muxctrl 0x1F207D40 ("PAD_SR_IO13" ∷ [])
    ∷ muxctrl 0x1F207D44 ("PAD_SR_IO14" ∷ [])
    ∷ muxctrl 0x1F207D48 ("PAD_SR_IO15" ∷ [])
    ∷ muxctrl 0x1F207D4C ("PAD_SR_IO16" ∷ [])
    ∷ muxctrl 0x1F207D50 ("PAD_SR_IO17" ∷ [])
    ∷ muxctrl 0x1F207D54 ("PAD_SAR_GPIO3" ∷ [])
    ∷ muxctrl 0x1F207D58 ("PAD_SAR_GPIO2" ∷ [])
    ∷ muxctrl 0x1F207D5C ("PAD_SAR_GPIO1" ∷ [])
    ∷ muxctrl 0x1F207D60 ("PAD_SAR_GPIO0" ∷ [])
    ∷ []

pub i6c_regs-proper : proper i6c_regs ≡ true
unfolding i6c_regs proper
i6c_regs-proper = refl
