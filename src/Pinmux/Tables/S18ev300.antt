-- ===== src/Pinmux/Tables/S18ev300.antt =====
-- src/reginfo.c: the registers of `_8EV300regs`, in its order.
use ipctool.Base.{List, [], ◌∷◌, ◌≡◌, refl, true}
use ipctool.Pinmux.Register.{Register, muxctrl, proper}

pub s18ev300_regs : List Register
s18ev300_regs =
    muxctrl 0x100C0000 ("GPIO0_1" ∷ "UART0_RXD" ∷ [])
    ∷ muxctrl 0x100C0004 ("GPIO0_2" ∷ "UART0_TXD" ∷ [])
    ∷ muxctrl 0x100C0008 ("GPIO0_0" ∷ "UPDATE_MODE" ∷ [])
    ∷ muxctrl 0x100C000C ("GPIO0_3" ∷ "PWM0" ∷ "UART1_TXD" ∷ "I2C1_SCL" ∷ [])
    ∷ muxctrl 0x100C0010 ("GPIO0_4" ∷ "PWM1" ∷ "UART1_RXD" ∷ "I2C1_SDA" ∷ [])
    ∷ muxctrl 0x100C0014 ("EMMC_CLK" ∷ "SFC_CLK" ∷ "SFC_DEVICE_MODE" ∷ [])
    ∷ muxctrl 0x100C0018 ("EMMC_CMD" ∷ "SFC_MOSI_IO0" ∷ [])
    ∷ muxctrl 0x100C001C ("EMMC_DATA0" ∷ "SFC_MISO_IO1" ∷ [])
    ∷ muxctrl 0x100C0020 ("EMMC_DATA3" ∷ "SFC_WP_IO2" ∷ [])
    ∷ muxctrl 0x100C0024 ("EMMC_DATA2" ∷ "SFC_HOLD_IO3" ∷ [])
    ∷ muxctrl 0x100C0028 ("EMMC_DATA1" ∷ "SFC_CSN" ∷ [])
    ∷ muxctrl 0x100C002C ("SYS_RSTN_OUT" ∷ [])
    ∷ muxctrl 0x100C0040 (
        "GPIO4_0" ∷ "SDIO0_CCLK_OUT" ∷ "JTAG_TCK" ∷ "EMMC_CLK" ∷ "SDIO1_CCLK_OUT" ∷ "reserved"
        ∷ "VO_BT1120_DATA10" ∷ "SFC_INPUT_SEL" ∷ [])
    ∷ muxctrl 0x100C0044 (
        "GPIO4_1" ∷ "SDIO0_CCMD" ∷ "reserved" ∷ "EMMC_CMD" ∷ "SDIO1_CCMD" ∷ "reserved"
        ∷ "VO_BT1120_DATA11" ∷ [])
    ∷ muxctrl 0x100C0048 (
        "GPIO4_2" ∷ "SDIO0_CDATA0" ∷ "JTAG_TMS" ∷ "EMMC_DATA1" ∷ "SDIO1_CDATA3" ∷ "reserved"
        ∷ "VO_BT1120_DATA12" ∷ [])
    ∷ muxctrl 0x100C004C (
        "GPIO4_3" ∷ "SDIO0_CDATA1" ∷ "JTAG_TDO" ∷ "EMMC_DATA2" ∷ "SDIO1_CDATA2" ∷ "reserved"
        ∷ "VO_BT1120_DATA13" ∷ [])
    ∷ muxctrl 0x100C0050 (
        "GPIO4_4" ∷ "SDIO0_CDATA2" ∷ "JTAG_TDI" ∷ "EMMC_DATA3" ∷ "SDIO1_CDATA1" ∷ "reserved"
        ∷ "VO_BT1120_DATA14" ∷ [])
    ∷ muxctrl 0x100C0054 (
        "GPIO4_5" ∷ "SDIO0_CDATA3" ∷ "JTAG_TRSTN" ∷ "EMMC_DATA0" ∷ "SDIO1_CDATA0" ∷ "reserved"
        ∷ "VO_BT1120_DATA15" ∷ [])
    ∷ muxctrl 0x100C005C ("GPIO4_7" ∷ "SDIO0_CARD_DETECT" ∷ "reserved" ∷ "EMMC_RST_N" ∷ [])
    ∷ muxctrl 0x112C0000 ("MIPI_RX_CK0N" ∷ "reserved" ∷ "VI_CLK" ∷ [])
    ∷ muxctrl 0x112C0004 ("MIPI_RX_CK0P" ∷ "reserved" ∷ "VI_DATA7" ∷ [])
    ∷ muxctrl 0x112C0008 ("MIPI_RX_D0N" ∷ "reserved" ∷ "VI_DATA8" ∷ [])
    ∷ muxctrl 0x112C000C ("MIPI_RX_D0P" ∷ "reserved" ∷ "VI_DATA9" ∷ [])
    ∷ muxctrl 0x112C0010 ("MIPI_RX_D2N" ∷ "reserved" ∷ "VI_DATA11" ∷ [])
    ∷ muxctrl 0x112C0014 ("MIPI_RX_D2P" ∷ "reserved" ∷ "VI_DATA10" ∷ [])
    ∷ muxctrl 0x112C0028 ("TEST_CLK" ∷ "SENSOR_CLK" ∷ "VI_DATA6" ∷ "reserved" ∷ "GPIO5_4" ∷ [])
    ∷ muxctrl 0x112C002C ("GPIO5_5" ∷ "SENSOR_RSTN" ∷ "VI_DATA4" ∷ [])
    ∷ muxctrl 0x112C0030 ("GPIO5_6" ∷ "I2C0_SDA" ∷ "VI_DATA3" ∷ [])
    ∷ muxctrl 0x112C0034 ("GPIO5_7" ∷ "I2C0_SCL" ∷ "VI_DATA5" ∷ [])
    ∷ muxctrl 0x112C0038 (
        "GPIO6_2" ∷ "I2C2_SDA" ∷ "VI_DATA2" ∷ "reserved" ∷ "reserved" ∷ "reserved" ∷ "reserved"
        ∷ "SPI0_SDO" ∷ [])
    ∷ muxctrl 0x112C003C (
        "GPIO6_3" ∷ "I2C2_SCL" ∷ "VI_DATA1" ∷ "reserved" ∷ "reserved" ∷ "reserved" ∷ "reserved"
        ∷ "SPI0_SCLK" ∷ [])
    ∷ muxctrl 0x112C0040 (
        "GPIO5_0" ∷ "reserved" ∷ "VI_DATA0" ∷ "reserved" ∷ "reserved" ∷ "reserved" ∷ "reserved"
        ∷ "SPI0_CSN" ∷ [])
    ∷ muxctrl 0x112C0044 ("GPIO5_1" ∷ "reserved" ∷ "TEST_MODE" ∷ [])
    ∷ muxctrl 0x112C0048 (
        "GPIO8_7" ∷ "BOOT_SEL1" ∷ "SENSOR_RSTN" ∷ "VO_BT656_CLK" ∷ "SDIO1_CCLK_OUT" ∷ "LCD_CLK"
        ∷ "VO_BT1120_CLK" ∷ "SPI1_SCLK" ∷ [])
    ∷ muxctrl 0x112C004C (
        "GPIO8_5" ∷ "reserved" ∷ "VI_HS" ∷ "VO_BT656_DATA0" ∷ "SDIO1_CCMD" ∷ "LCD_HS"
        ∷ "VO_BT1120_DATA8" ∷ "SPI1_SDI" ∷ [])
    ∷ muxctrl 0x112C0050 (
        "GPIO8_6" ∷ "reserved" ∷ "VI_VS" ∷ "VO_BT656_DATA1" ∷ "reserved" ∷ "LCD_VS"
        ∷ "VO_BT1120_DATA9" ∷ "SPI1_SDO" ∷ [])
    ∷ muxctrl 0x112C0054 (
        "GPIO8_4" ∷ "BOOT_SEL0" ∷ "SENSOR_CLK" ∷ "PWM2" ∷ "reserved" ∷ "LCD_DE" ∷ "reserved"
        ∷ "SPI1_CSN0" ∷ [])
    ∷ muxctrl 0x112C0058 (
        "GPIO7_0" ∷ "reserved" ∷ "I2C2_SCL" ∷ "VO_BT656_DATA4" ∷ "SDIO1_CDATA3" ∷ "LCD_DATA4"
        ∷ "VO_BT1120_DATA4" ∷ "SPI1_CSN1" ∷ [])
    ∷ muxctrl 0x112C005C (
        "GPIO7_1" ∷ "reserved" ∷ "I2C2_SDA" ∷ "VO_BT656_DATA5" ∷ "SDIO1_CDATA2" ∷ "LCD_DATA5"
        ∷ "VO_BT1120_DATA5" ∷ [])
    ∷ muxctrl 0x112C0060 (
        "GPIO7_2" ∷ "reserved" ∷ "I2C0_SDA" ∷ "VO_BT656_DATA6" ∷ "SDIO1_CDATA1" ∷ "LCD_DATA6"
        ∷ "VO_BT1120_DATA6" ∷ [])
    ∷ muxctrl 0x112C0064 (
        "GPIO7_3" ∷ "reserved" ∷ "I2C0_SCL" ∷ "VO_BT656_DATA7" ∷ "SDIO1_CDATA0" ∷ "LCD_DATA7"
        ∷ "VO_BT1120_DATA7" ∷ [])
    ∷ muxctrl 0x112C0068 (
        "GPIO6_7" ∷ "reserved" ∷ "reserved" ∷ "VO_BT656_DATA3" ∷ "reserved" ∷ "LCD_DATA3"
        ∷ "VO_BT1120_DATA3" ∷ "SPI0_CSN" ∷ [])
    ∷ muxctrl 0x112C006C (
        "GPIO6_6" ∷ "SFC_BOOT_MODE" ∷ "PWM3" ∷ "VO_BT656_DATA2" ∷ "reserved" ∷ "LCD_DATA2"
        ∷ "VO_BT1120_DATA2" ∷ "SPI0_SDO" ∷ [])
    ∷ muxctrl 0x112C0070 (
        "GPIO6_5" ∷ "reserved" ∷ "UART1_RXD" ∷ "reserved" ∷ "reserved" ∷ "LCD_DATA1"
        ∷ "VO_BT1120_DATA1" ∷ "SPI0_SDI" ∷ [])
    ∷ muxctrl 0x112C0074 (
        "GPIO6_4" ∷ "reserved" ∷ "UART1_TXD" ∷ "reserved" ∷ "reserved" ∷ "LCD_DATA0"
        ∷ "VO_BT1120_DATA0" ∷ "SPI0_SCLK" ∷ [])
    ∷ muxctrl 0x120C0000 ("GPIO1_0" ∷ "LSADC_CH0" ∷ [])
    ∷ muxctrl 0x120C0004 ("GPIO1_1" ∷ "LSADC_CH1" ∷ [])
    ∷ muxctrl 0x120C0010
        ("JTAG_TRSTN" ∷ "SPI1_CSN0" ∷ "GPIO1_4" ∷ "reserved" ∷ "UART2_RXD" ∷ "I2S_MCLK" ∷ [])
    ∷ muxctrl 0x120C0014
        ("JTAG_TCK" ∷ "SPI1_SCLK" ∷ "GPIO1_5" ∷ "reserved" ∷ "UART2_TXD" ∷ "I2S_BCLK" ∷ [])
    ∷ muxctrl 0x120C0018
        ("JTAG_TMS" ∷ "SPI1_SDI" ∷ "GPIO1_6" ∷ "PWM2" ∷ "UART2_CTSN" ∷ "I2S_WS" ∷ [])
    ∷ muxctrl 0x120C001C
        ("JTAG_TDO" ∷ "SPI1_SDO" ∷ "GPIO1_7" ∷ "reserved" ∷ "UART2_RTSN" ∷ "I2S_SD_RX" ∷ [])
    ∷ muxctrl 0x120C0020
        ("JTAG_TDI" ∷ "SPI1_CSN1" ∷ "GPIO2_0" ∷ "SDIO0_CARD_POWER_EN_N" ∷ "PWM3" ∷ "I2S_SD_TX" ∷ [])
    ∷ muxctrl 0x120F0010 ("PWR_RSTN" ∷ [])
    ∷ muxctrl 0x120F0014 ("PWR_SEQ" ∷ [])
    ∷ muxctrl 0x120F0018 ("PWR_BUTTON" ∷ [])
    ∷ muxctrl 0x120F0020 ("PWR_WAKEUP" ∷ [])
    ∷ []

pub s18ev300_regs-proper : proper s18ev300_regs ≡ true
unfolding s18ev300_regs proper
s18ev300_regs-proper = refl
